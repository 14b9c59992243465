-- ===== src/Expenses/Rows.antt =====
-- Rows of expenses under an id and a restaurant, and the sums over them (routers/expenses.py).
use karibu.Prelude.{
  ℕ, ◌+◌, ◌≡◌, ◌≢◌, ◌⊎◌, inl, inr, refl, ◌∙◌, ap, Bool, true, false, ◌&&◌, none, some, List, [],
  ◌∷◌, ◌++◌, arith, ◌==◌, if◌then◌else◌, select, select-test, select_all, update, delete, sum_of,
  All, All-mono, All-select, Bool-cases,
}
use mathlib.Core.Path.{subst}
use karibu.Expense.{Expense}
use karibu.Expenses.{is_expense, is_scoped, cents}
use karibu.Expenses.Reports.{was_paid, is_owed}

-- Ids are primary keys: no two expenses share one.
abbrev pub HasExpenseIds : List Expense → Type 0
HasExpenseIds [] = Unit
HasExpenseIds (e ∷ es) = All (λ (x : Expense). x.id ≢ e.id) es × HasExpenseIds es

abbrev pub belongs_to : ℕ → Expense → Bool
belongs_to rid e = e.restaurant_id == rid

-- The row that a scoped query finds is the first one, and then the only one with its id, or comes
-- later, and then the first one has another id.
pub scoped_head :
    (key rid : ℕ) (r : Expense) (es : List Expense) (e : Expense)
    → HasExpenseIds (r ∷ es)
    → select (is_scoped key rid) (r ∷ es) ≡ some e
    → ((r ≡ e) × (r.id ≡ key) × (r.restaurant_id ≡ rid) × All (λ (x : Expense). x.id ≢ key) es)
      ⊎ ((r.id ≢ key) × (select (is_scoped key rid) es ≡ some e))
scoped_head key rid r es e ids h = elim (Bool-cases (is_scoped key rid r)) [
  | inl here ↦
      let own : r.id ≡ key = ground arith in
      inl
        (ground arith, own, ground arith, subst (λ k. All (λ (x : Expense). x.id ≢ k) es) own ids.0)
  | inr there ↦
      let rest : select (is_scoped key rid) es ≡ some e = ground arith in
      let apart = All-select (λ (x : Expense). x.id ≢ r.id) (is_scoped key rid) es e ids.0 rest in
      let found = select-test (is_scoped key rid) es e rest in
      inr (ground (arith, apart, found), rest)
]

abbrev pub is_other : ℕ → ℕ → Expense → Bool
is_other key rid r = is_expense key r && belongs_to rid r

pub absent_other :
    (key rid : ℕ) (es : List Expense)
    → All (λ (x : Expense). x.id ≢ key) es
    → All (λ (r : Expense). is_other key rid r ≡ false) es
absent_other key rid es = All-mono _ _ es (λ x h. ground arith)

-- No row of the id that was found in a restaurant is of another one.
pub no_other :
    (key rid other : ℕ) (es : List Expense) (e : Expense)
    → rid ≢ other
    → HasExpenseIds es
    → select (is_scoped key rid) es ≡ some e
    → All (λ (r : Expense). is_other key other r ≡ false) es
no_other key rid other [] e apart ids h = tt
no_other key rid other (r ∷ es) e apart ids h = elim (scoped_head key rid r es e ids h) [
  | inl (same, own, home, rest) ↦ (ground arith, absent_other key other es rest)
  | inr (new, rest) ↦ (ground arith, no_other key rid other es e apart ids.1 rest)
]

-- Writing or deleting rows of other tenants.
module _ (key rid : ℕ) where
  pub select_all-update :
      (s : Expense) (es : List Expense)
      → s.restaurant_id ≢ rid
      → All (λ (r : Expense). is_other key rid r ≡ false) es
      → select_all (belongs_to rid) (update (is_expense key) (λ _. s) es)
        ≡ select_all (belongs_to rid) es
  select_all-update s [] other h = refl
  select_all-update s (e ∷ es) other h = ground (arith, select_all-update s es)

  pub select_all-delete :
      (es : List Expense)
      → All (λ (r : Expense). is_other key rid r ≡ false) es
      → select_all (belongs_to rid) (delete (is_expense key) es) ≡ select_all (belongs_to rid) es
  select_all-delete [] h = refl
  select_all-delete (e ∷ es) h = ground (arith, select_all-delete es)

  pub delete-fresh :
      (x : Expense) (es : List Expense)
      → x.id ≡ key
      → All (λ (e : Expense). e.id ≢ key) es
      → delete (is_expense key) (es ++ x ∷ []) ≡ es
  delete-fresh x [] same h = ground arith
  delete-fresh x (e ∷ es) same h = ground (arith, delete-fresh x es)

  pub select-fresh :
      (es : List Expense)
      → All (λ (e : Expense). e.id ≢ key) es
      → select (is_scoped key rid) es ≡ none
  select-fresh [] h = refl
  select-fresh (e ∷ es) h = ground (arith, select-fresh es)

sum-update_absent :
    (f : Expense → ℕ) (key : ℕ) (s : Expense) (es : List Expense)
    → All (λ (x : Expense). x.id ≢ key) es
    → sum_of f (update (is_expense key) (λ _. s) es) ≡ sum_of f es
sum-update_absent f key s [] h = refl
sum-update_absent f key s (e ∷ es) h = ground (arith, sum-update_absent f key s es)

-- A sum of weights after one row was written.
pub sum-update :
    (f : Expense → ℕ) (key rid : ℕ) (s : Expense) (es : List Expense) (e : Expense)
    → HasExpenseIds es
    → select (is_scoped key rid) es ≡ some e
    → sum_of f (update (is_expense key) (λ _. s) es) + f e ≡ sum_of f es + f s
sum-update f key rid s [] e ids h = absurd (cc)
sum-update f key rid s (r ∷ es) e ids h = elim (scoped_head key rid r es e ids h) [
  | inl (same, own, home, rest) ↦
      let f_same : f r ≡ f e = ap f same in
      let at_head : is_expense key r ≡ true = ground arith in
      rw at_head (omega (arith, sum-update_absent f key s es rest))
  | inr (new, rest) ↦
      let not_head : is_expense key r ≡ false = ground arith in
      rw not_head (omega (arith, sum-update f key rid s es e ids.1 rest))
]

-- What the scoped query finds once the row was written back.
pub select-saved :
    (key rid : ℕ) (s : Expense) (es : List Expense) (e : Expense)
    → s.id ≡ key
    → s.restaurant_id ≡ rid
    → HasExpenseIds es
    → select (is_scoped key rid) es ≡ some e
    → select (is_scoped key rid) (update (is_expense key) (λ _. s) es) ≡ some s
select-saved key rid s [] e own home ids h = absurd (cc)
select-saved key rid s (r ∷ es) e own home ids h = elim (scoped_head key rid r es e ids h) [
  | inl (same, at, here, rest) ↦ ground arith
  | inr (new, rest) ↦ ground (arith, select-saved key rid s es e own home ids.1 rest)
]

sum-select_all :
    (f : Expense → ℕ) (test : Expense → Bool) (es : List Expense)
    → sum_of f (select_all test es) ≡ sum_of (λ e. if test e then f e else 0) es
sum-select_all f test [] = refl
sum-select_all f test (e ∷ es) = ground (arith, sum-select_all f test es)

-- A weight that only the rows of a listing have.
abbrev weigh : (Expense → Bool) → (Expense → ℕ) → Expense → ℕ
weigh test f e = if test e then f e else 0

sum-twice :
    (inner outer : Expense → Bool) (es : List Expense)
    → sum_of cents (select_all inner (select_all outer es))
      ≡ sum_of (weigh outer (weigh inner cents)) es
sum-twice inner outer es =
    sum-select_all cents inner (select_all outer es) ∙ sum-select_all (weigh inner cents) outer es

-- What the three sums of a listing become when a row of the same amount and listed alike is written
-- as paid in place of one that was owed.
pub sums-paid :
    (test : Expense → Bool) (key rid : ℕ) (s : Expense) (es : List Expense) (e : Expense)
    → HasExpenseIds es
    → select (is_scoped key rid) es ≡ some e
    → test s ≡ test e
    → s.amount_cents ≡ e.amount_cents
    → s.is_paid ≡ true
    → e.is_paid ≡ false
    → let old = select_all test es in
      let new = select_all test (update (is_expense key) (λ _. s) es) in
      (sum_of cents new ≡ sum_of cents old)
      × (sum_of cents (select_all was_paid new)
          ≡ sum_of cents (select_all was_paid old) + weigh test cents e)
      × (sum_of cents (select_all is_owed new) + weigh test cents e
          ≡ sum_of cents (select_all is_owed old))
sums-paid test key rid s es e ids found alike amount paid owed =
    let es' = update (is_expense key) (λ _. s) es in
    let whole = sum-update (weigh test cents) key rid s es e ids found in
    let paid_part = sum-update (weigh test (weigh was_paid cents)) key rid s es e ids found in
    let owed_part = sum-update (weigh test (weigh is_owed cents)) key rid s es e ids found in
    let same : weigh test cents s ≡ weigh test cents e = rw (alike, amount) refl in
    let paid_new : weigh test (weigh was_paid cents) s ≡ weigh test cents e =
      rw (alike, amount, paid) refl in
    let paid_old : weigh test (weigh was_paid cents) e ≡ 0 = ground arith in
    let owed_new : weigh test (weigh is_owed cents) s ≡ 0 = ground arith in
    let owed_old : weigh test (weigh is_owed cents) e ≡ weigh test cents e = rw owed refl in
    (
      omega (arith, sum-select_all cents test es, sum-select_all cents test es'),
      omega (arith, sum-twice was_paid test es, sum-twice was_paid test es'),
      omega (arith, sum-twice is_owed test es, sum-twice is_owed test es'),
    )
