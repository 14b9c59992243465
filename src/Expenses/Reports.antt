-- ===== src/Expenses/Reports.antt =====
-- The figures of `list_expenses` and `expenses_pdf` (routers/expenses.py).
use karibu.Prelude.{
  ℕ, ◌+◌, ◌≡◌, refl, String, Bool, not, Option, List, [], ◌∷◌, arith, if◌then◌else◌, select_all,
  sum_of,
}
use mathlib.Core.Path.{subst}
use karibu.Api.{ok, ok-injective, bind-eq-ok}
use karibu.Access.{User}
use karibu.Access.Laws.{behind_guard}
use karibu.Expense.{Expense, ExpenseCategory}
use karibu.Expenses.{
  Breakdown, same_category, add_category, add_expenses, by_category, cents, Figures, figures,
  category_filter, base_rows, list_expenses,
}
use karibu.Db.{Db}

-- what a breakdown says of one category
abbrev pub spent_on : ExpenseCategory → Breakdown → ℕ
spent_on c [] = 0
spent_on c ((k, n) ∷ rest) = if same_category k c then n else spent_on c rest

abbrev pub amount_of : ExpenseCategory × ℕ → ℕ
amount_of e = e.1

abbrev pub has_category : ExpenseCategory → Expense → Bool
has_category c e = same_category e.category c

abbrev pub was_paid : Expense → Bool
was_paid e = e.is_paid

abbrev pub is_owed : Expense → Bool
is_owed e = not e.is_paid

sum-add_category :
    (c : ExpenseCategory) (amount : ℕ) (t : Breakdown)
    → sum_of amount_of (add_category c amount t) ≡ sum_of amount_of t + amount
unfolding add_category
sum-add_category c amount [] = omega arith
sum-add_category c amount ((k, n) ∷ t) = ground (arith, sum-add_category c amount t)

spent_on-add_category :
    (q c : ExpenseCategory) (amount : ℕ) (t : Breakdown)
    → spent_on q (add_category c amount t)
      ≡ (if same_category c q then spent_on q t + amount else spent_on q t)
unfolding add_category
spent_on-add_category q c amount [] = ground arith
spent_on-add_category q c amount ((k, n) ∷ t) = ground (arith, spent_on-add_category q c amount t)

sum-add_expenses :
    (es : List Expense) (t : Breakdown)
    → sum_of amount_of (add_expenses es t) ≡ sum_of amount_of t + sum_of cents es
unfolding add_expenses
sum-add_expenses [] t = omega arith
sum-add_expenses (e ∷ es) t = omega (
  arith,
  sum-add_expenses es (add_category e.category e.amount_cents t),
  sum-add_category e.category e.amount_cents t,
)

spent_on-add_expenses :
    (q : ExpenseCategory) (es : List Expense) (t : Breakdown)
    → spent_on q (add_expenses es t) ≡ spent_on q t + sum_of cents (select_all (has_category q) es)
unfolding add_expenses
spent_on-add_expenses q [] t = omega arith
spent_on-add_expenses q (e ∷ es) t = ground (
  arith,
  spent_on-add_expenses q es (add_category e.category e.amount_cents t),
  spent_on-add_category q e.category e.amount_cents t,
)

paid_and_owed :
    (es : List Expense)
    → sum_of cents (select_all was_paid es) + sum_of cents (select_all is_owed es) ≡ sum_of cents es
paid_and_owed [] = refl
paid_and_owed (e ∷ es) = ground (arith, paid_and_owed es)

-- Figures that are the sums of the rows: of all, of the paid, of those still owed, and of the
-- category `q`.
abbrev pub IsExact : ExpenseCategory → List Expense → Figures → Type 0
IsExact q es f =
    (f.total_cents ≡ sum_of cents es)
    × (f.paid_cents ≡ sum_of cents (select_all was_paid es))
    × (f.unpaid_cents ≡ sum_of cents (select_all is_owed es))
    × (spent_on q f.breakdown ≡ sum_of cents (select_all (has_category q) es))

-- The figures of some rows, as sums over the rows themselves.
pub figures-IsExact : (es : List Expense) (q : ExpenseCategory) → IsExact q es (figures es)
unfolding figures by_category
figures-IsExact es q = (
  omega (arith, sum-add_expenses es []),
  refl,
  omega (arith, sum-add_expenses es [], paid_and_owed es),
  omega (arith, spent_on-add_expenses q es []),
)

-- The figures of a listing that is answered, which are read off the breakdown by category, are the
-- sums of its rows: of all of them, of the paid, of those still owed, and of each category.
pub list_expenses-IsExact :
    (text : Option String) (days now : ℕ) (user : User) (db : Db) (f : Figures)
    (q : ExpenseCategory)
    → list_expenses text days now user db ≡ ok f
    → (category : Option ExpenseCategory) × (category_filter text ≡ ok category)
      × IsExact q (base_rows category days now user db) f
unfolding list_expenses
list_expenses-IsExact text days now user db f q done =
    let (inner, _, _) = behind_guard user _ done in
    let (category, filtered, same) = bind-eq-ok (category_filter text) _ inner in
    (
      category,
      filtered,
      subst (IsExact q (base_rows category days now user db)) (ok-injective same)
          (figures-IsExact (base_rows category days now user db) q),
    )
