-- ===== src/Expenses/Effects.antt =====
-- What the handlers of routers/expenses.py change: one row of the caller's restaurant.
use karibu.Prelude.{
  ℕ, ◌+◌, ◌-◌, ◌*◌, ◌≡◌, ◌≢◌, refl, sym, false, Option, none, some, [], ◌∷◌, ◌++◌, arith,
  if◌then◌else◌, select, select-test, select-append_none, All,
}
use mathlib.Core.Path.{subst}
use karibu.Api.{
  ok, err, or_raise-eq-ok, raise_if-eq-ok, ok-injective, expense_already_paid, expense_not_found,
  unknown_category,
}
use karibu.Access.{User, require_roles, managers}
use karibu.Access.Laws.{behind_guard, require_roles-managers_iff}
use karibu.Expense.{Expense, ExpenseCategory, parse_category}
use karibu.Expenses.{
  ExpenseCreate, is_scoped, scoped, new_expense, create_expense, delete_expense, paid_row,
  mark_expense_paid, in_base, figures, base_rows, save,
}
use karibu.Expenses.Reports.{figures-IsExact}
use karibu.Db.{Db}
use karibu.Expenses.Rows.{HasExpenseIds, delete-fresh, select-fresh, select-saved, sums-paid}

-- Deleting an expense right after recording it under a fresh id gives back the tables as they
-- were.
pub delete-create :
    (body : ExpenseCreate) (user : User) (now key : ℕ) (db db' : Db)
    → All (λ (e : Expense). e.id ≢ key) db.expenses
    → create_expense body user now key db ≡ ok db'
    → delete_expense key user db' ≡ ok db
unfolding create_expense delete_expense scoped new_expense
delete-create body user now key db db' fresh done =
    let (inner, role, settled) = behind_guard user _ done in
    let passed = (require_roles-managers_iff user user).1 (refl, role, settled) in
    let (category, _, same) =
      or_raise-eq-ok (parse_category body.category) unknown_category _ inner in
    let row = new_expense body category user now key in
    let found : select (is_scoped key user.restaurant_id) (db.expenses ++ row ∷ []) ≡ some row =
      select-append_none (is_scoped key user.restaurant_id) db.expenses row
        (select-fresh key user.restaurant_id db.expenses fresh) (ground arith) in
    subst (λ (d : Db). delete_expense key user d ≡ ok db) (ok-injective same)
      (rw (passed, found, delete-fresh key user.restaurant_id row db.expenses refl fresh) refl)

-- What `mark_expense_paid` has found and checked, and what it writes.
pub paid-eq-ok :
    (key : ℕ) (user : User) (now : ℕ) (db db' : Db)
    → mark_expense_paid key user now db ≡ ok db'
    → (e : Expense) × (select (is_scoped key user.restaurant_id) db.expenses ≡ some e)
      × (e.is_paid ≡ false)
      × (db' ≡ save (paid_row now e) db)
      × (require_roles managers user ≡ ok user)
unfolding mark_expense_paid scoped
paid-eq-ok key user now db db' done =
    let (inner, role, settled) = behind_guard user _ done in
    let (e, found, rest) =
      or_raise-eq-ok (select (is_scoped key user.restaurant_id) db.expenses) expense_not_found _
        inner in
    let (unpaid, same) = raise_if-eq-ok e.is_paid expense_already_paid _ rest in
    (
      e,
      found,
      unpaid,
      sym (ok-injective same),
      (require_roles-managers_iff user user).1 (refl, role, settled),
    )

-- Paying an expense leaves it in the same listings.
in_base-paid_row :
    (rid since : ℕ) (category : Option ExpenseCategory) (now : ℕ) (e : Expense)
    → in_base rid since category (paid_row now e) ≡ in_base rid since category e
unfolding in_base paid_row
in_base-paid_row rid since none now e = refl
in_base-paid_row rid since (some c) now e = refl

-- The amount of `e` has moved, in the figures of a listing that has `e`, from what is owed to what
-- is paid, and nothing else in them has changed.
abbrev pub Moves : User → Option ExpenseCategory → ℕ → ℕ → Expense → Db → Db → Type 0
Moves reader category days at e db db' =
    let before = figures (base_rows category days at reader db) in
    let after = figures (base_rows category days at reader db') in
    let moved =
      if in_base reader.restaurant_id (at - days * 86400) category e then e.amount_cents else 0 in
    (after.total_cents ≡ before.total_cents)
    × (after.paid_cents ≡ before.paid_cents + moved)
    × (after.unpaid_cents + moved ≡ before.unpaid_cents)

-- The figures of any listing once a row that was owed is written as paid.
figures-paid :
    (now : ℕ) (category : Option ExpenseCategory) (days at rid : ℕ) (reader : User) (e : Expense)
    (db : Db)
    → HasExpenseIds db.expenses
    → select (is_scoped e.id rid) db.expenses ≡ some e
    → e.is_paid ≡ false
    → Moves reader category days at e db (save (paid_row now e) db)
unfolding paid_row base_rows
figures-paid now category days at rid reader e db ids found unpaid =
    let listed = in_base reader.restaurant_id (at - days * 86400) category in
    let (total, paid, owed) =
      sums-paid listed e.id rid (paid_row now e) db.expenses e ids found
        (in_base-paid_row reader.restaurant_id (at - days * 86400) category now e) refl refl
        unpaid in
    let (total0, paid0, owed0, _) =
      figures-IsExact (base_rows category days at reader db) e.category in
    let (total1, paid1, owed1, _) =
      figures-IsExact (base_rows category days at reader (save (paid_row now e) db)) e.category in
    (omega arith, omega arith, omega arith)

-- An expense that is written as paid is not paid again.
paid_again :
    (now again : ℕ) (user : User) (e : Expense) (db : Db)
    → HasExpenseIds db.expenses
    → select (is_scoped e.id user.restaurant_id) db.expenses ≡ some e
    → e.restaurant_id ≡ user.restaurant_id
    → require_roles managers user ≡ ok user
    → mark_expense_paid e.id user again (save (paid_row now e) db) ≡ err expense_already_paid
unfolding mark_expense_paid scoped paid_row
paid_again now again user e db ids found home passed =
    rw
      (
        passed,
        select-saved e.id user.restaurant_id (paid_row now e) db.expenses e refl home ids found,
      )
      refl

-- Paying an expense, where no two expenses share an id and the request is accepted, moves its
-- amount from what is owed to what is paid in the figures of every listing that has it, leaves the
-- total of every listing as it was, and is refused when it is asked for again.
pub mark_expense_paid-Moves :
    (key now : ℕ) (user : User) (category : Option ExpenseCategory) (days at again : ℕ)
    (reader : User) (db db' : Db)
    → HasExpenseIds db.expenses
    → mark_expense_paid key user now db ≡ ok db'
    → (e : Expense) × (scoped db key user.restaurant_id ≡ ok e)
      × Moves reader category days at e db db'
      × (mark_expense_paid key user again db' ≡ err expense_already_paid)
unfolding scoped
mark_expense_paid-Moves key now user category days at again reader db db' ids done =
    let (e, found, unpaid, same, passed) = paid-eq-ok key user now db db' done in
    let tested = select-test (is_scoped key user.restaurant_id) db.expenses e found in
    let own : e.id ≡ key = ground arith in
    let home : e.restaurant_id ≡ user.restaurant_id = ground arith in
    let found_own : select (is_scoped e.id user.restaurant_id) db.expenses ≡ some e =
      subst (λ k. select (is_scoped k user.restaurant_id) db.expenses ≡ some e) (sym own) found in
    (
      e,
      rw found refl,
      subst (Moves reader category days at e db) (sym same)
          (figures-paid now category days at user.restaurant_id reader e db ids found_own unpaid),
      subst (λ (d : Db). mark_expense_paid key user again d ≡ err expense_already_paid) (sym same)
          (subst
            (λ k.
              mark_expense_paid k user again (save (paid_row now e) db) ≡ err expense_already_paid)
            own (paid_again now again user e db ids found_own home passed)),
    )
