-- ===== src/Expenses.antt =====
-- routers/expenses.py: recording, editing, deleting and settling the money that goes out, and the
-- figures of the listing and of the printed report.
pub mod Reports
pub mod Rows
pub mod Effects
pub mod Tenants
pub mod Requests
use karibu.Prelude.{
  ℕ, ◌+◌, ◌-◌, ◌*◌, String, Bool, true, false, ◌&&◌, Option, none, some, List, [], ◌∷◌, ◌++◌, leb,
  ◌==◌, if◌then◌else◌, select, select_all, update, delete, is_empty, sum_of, Decimal, to_cents,
}
use karibu.Api.{
  Result, ok, ◌>>=◌, ◌>>◌, raise_if, or_raise, expense_not_found, unknown_category,
  expense_already_paid,
}
use karibu.Access.{User, require_roles, managers}
use karibu.Expense.{Expense, ExpenseCategory, parse_category}
use karibu.Db.{Db}

-- `ExpenseCreate` and `ExpenseUpdate` of schemas/expense.py
pub record ExpenseCreate : Type 0 where
  pub category : String
  pub amount : Decimal
  pub note : Option String
  pub payee : Option String
  pub method : String
  pub reference : Option String
  pub spent_at : Option ℕ

pub record ExpenseUpdate : Type 0 where
  pub category : Option String
  pub amount : Option Decimal
  pub note : Option String
  pub payee : Option String
  pub method : Option String
  pub reference : Option String
  pub spent_at : Option ℕ

abbrev pub is_expense : ℕ → Expense → Bool
is_expense key e = e.id == key

abbrev pub is_scoped : ℕ → ℕ → Expense → Bool
is_scoped key rid e = e.id == key && e.restaurant_id == rid

-- `_scoped`
unfoldable pub scoped : Db → ℕ → ℕ → Result Expense
scoped db key rid = or_raise (select (is_scoped key rid) db.expenses) expense_not_found

-- the row of `create_expense`; `is_paid` is the default of the column
unfoldable pub new_expense : ExpenseCreate → ExpenseCategory → User → ℕ → ℕ → Expense
new_expense body category user now key = record {
  id = key;
  restaurant_id = user.restaurant_id;
  category = category;
  amount_cents = to_cents body.amount;
  note = body.note;
  payee = body.payee;
  method = body.method;
  reference = body.reference;
  is_paid = true;
  paid_at = none;
  due_date = none;
  stock_movement_id = none;
  spent_at = elim body.spent_at [ none ↦ now | some at ↦ at ];
  recorded_by_id = some user.id;
}

-- `create_expense`; `key` is the id of the new row
unfoldable pub create_expense : ExpenseCreate → User → ℕ → ℕ → Db → Result Db
create_expense body user now key db = do
  caller ← require_roles managers user
  category ← or_raise (parse_category body.category) unknown_category
  ok (record db { expenses = db.expenses ++ new_expense body category caller now key ∷ [] })

-- a column that the request may leave as it is
abbrev given {ℓ} : {A : Type ℓ} → Option A → A → A
given none old = old
given (some new) old = new

abbrev given_or : Option String → Option String → Option String
given_or none old = old
given_or (some new) old = some new

abbrev given_cents : Option Decimal → ℕ → ℕ
given_cents none old = old
given_cents (some amount) old = to_cents amount

-- the category that an update leaves
unfoldable pub category_of : ExpenseUpdate → Expense → Result ExpenseCategory
category_of body expense = elim body.category [
  | none ↦ ok expense.category
  | some text ↦ or_raise (parse_category text) unknown_category
]

-- the assignments of `update_expense`
unfoldable pub edit_expense : ExpenseUpdate → ExpenseCategory → Expense → Expense
edit_expense body category expense = record expense {
  category = category;
  amount_cents = given_cents body.amount expense.amount_cents;
  note = given_or body.note expense.note;
  payee = given_or body.payee expense.payee;
  method = given body.method expense.method;
  reference = given_or body.reference expense.reference;
  spent_at = given body.spent_at expense.spent_at;
}

abbrev pub save : Expense → Db → Db
save expense db = record db { expenses = update (is_expense expense.id) (λ _. expense) db.expenses }

-- `update_expense`
unfoldable pub update_expense : ℕ → ExpenseUpdate → User → Db → Result Db
update_expense key body user db = do
  caller ← require_roles managers user
  expense ← scoped db key caller.restaurant_id
  category ← category_of body expense
  ok (save (edit_expense body category expense) db)

-- `delete_expense`
unfoldable pub delete_expense : ℕ → User → Db → Result Db
delete_expense key user db = do
  caller ← require_roles managers user
  expense ← scoped db key caller.restaurant_id
  ok (record db { expenses = delete (is_expense expense.id) db.expenses })

-- what `mark_expense_paid` writes
unfoldable pub paid_row : ℕ → Expense → Expense
paid_row now expense = record expense { is_paid = true; paid_at = some now }

-- `mark_expense_paid`
unfoldable pub mark_expense_paid : ℕ → User → ℕ → Db → Result Db
mark_expense_paid key user now db = do
  caller ← require_roles managers user
  expense ← scoped db key caller.restaurant_id
  raise_if expense.is_paid expense_already_paid
  ok (save (paid_row now expense) db)

-- the position in `ExpenseCategory.ALL`, which tells categories apart
unfoldable pub place : ExpenseCategory → ℕ
place ExpenseCategory.stock = 0
place ExpenseCategory.rent = 1
place ExpenseCategory.salaries = 2
place ExpenseCategory.utilities = 3
place ExpenseCategory.transport = 4
place ExpenseCategory.equipment = 5
place ExpenseCategory.licences = 6
place ExpenseCategory.marketing = 7
place ExpenseCategory.repairs = 8
place ExpenseCategory.other = 9

abbrev pub same_category : ExpenseCategory → ExpenseCategory → Bool
same_category a b = place a == place b

abbrev pub Breakdown : Type 0
Breakdown = List (ExpenseCategory × ℕ)

-- `by_category[c] = by_category.get(c, 0) + amount`
unfoldable pub add_category : ExpenseCategory → ℕ → Breakdown → Breakdown
add_category c amount [] = (c, amount) ∷ []
add_category c amount ((k, n) ∷ rest) =
    if same_category k c then (k, n + amount) ∷ rest else (k, n) ∷ add_category c amount rest

-- the loop of `expenses_pdf`
unfoldable pub add_expenses : List Expense → Breakdown → Breakdown
add_expenses [] totals = totals
add_expenses (e ∷ es) totals = add_expenses es (add_category e.category e.amount_cents totals)

-- the sums grouped by category
unfoldable pub by_category : List Expense → Breakdown
by_category es = add_expenses es []

-- `base` of `list_expenses`: the tenant's rows since a time, of one category where it is given
abbrev in_category : Option ExpenseCategory → Expense → Bool
in_category none e = true
in_category (some c) e = same_category e.category c

unfoldable pub in_base : ℕ → ℕ → Option ExpenseCategory → Expense → Bool
in_base rid since category e =
    (e.restaurant_id == rid && leb since e.spent_at) && in_category category e

-- `total_cents`, `paid_cents`, their difference, and the breakdown
pub record Figures : Type 0 where
  pub total_cents : ℕ
  pub paid_cents : ℕ
  pub unpaid_cents : ℕ
  pub breakdown : Breakdown

abbrev pub cents : Expense → ℕ
cents e = e.amount_cents

-- the figures over the rows of `base`
unfoldable pub figures : List Expense → Figures
figures rows =
    let breakdown = by_category rows in
    let total = sum_of (λ (e : ExpenseCategory × ℕ). e.1) breakdown in
    let paid = sum_of cents (select_all (λ (e : Expense). e.is_paid) rows) in
    record {
      total_cents = total;
      paid_cents = paid;
      unpaid_cents = total - paid;
      breakdown = breakdown;
    }

-- `if category:`
unfoldable pub category_filter : Option String → Result (Option ExpenseCategory)
category_filter none = ok none
category_filter (some text) =
    if is_empty text
    then ok none
    else (or_raise (parse_category text) unknown_category >>= λ c. ok (some c))

-- the rows of `list_expenses` before paging
unfoldable pub base_rows : Option ExpenseCategory → ℕ → ℕ → User → Db → List Expense
base_rows category days now user db =
    select_all (in_base user.restaurant_id (now - days * 86400) category) db.expenses

-- `list_expenses`, its figures
unfoldable pub list_expenses : Option String → ℕ → ℕ → User → Db → Result Figures
list_expenses text days now user db = do
  caller ← require_roles managers user
  category ← category_filter text
  ok (figures (base_rows category days now caller db))
