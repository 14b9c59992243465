-- ===== src/Expenses/Tenants.antt =====
-- What the handlers of routers/expenses.py leave of other restaurants.
use karibu.Prelude.{
  ℕ, ◌≡◌, ◌≢◌, refl, sym, Bool, false, some, List, [], ◌∷◌, ◌++◌, arith, select, select-test,
  select_all, update,
}
use mathlib.Core.Path.{subst}
use karibu.Api.{ok, bind-eq-ok, or_raise-eq-ok, ok-injective, expense_not_found, unknown_category}
use karibu.Access.{User}
use karibu.Access.Laws.{behind_guard}
use karibu.Expense.{Expense, parse_category}
use karibu.Expenses.{
  ExpenseCreate, ExpenseUpdate, is_expense, is_scoped, scoped, new_expense, create_expense,
  edit_expense, update_expense, delete_expense, paid_row, mark_expense_paid, save, category_of,
}
use karibu.Db.{Db}
use karibu.Expenses.Rows.{HasExpenseIds, no_other, select_all-update, select_all-delete, belongs_to}
use karibu.Expenses.Effects.{paid-eq-ok}

abbrev pub Keeps : ℕ → Db → Db → Type 0
Keeps rid db db' =
    select_all (belongs_to rid) db'.expenses ≡ select_all (belongs_to rid) db.expenses

-- A request to the handlers of the file that was accepted.
pub data Change (user : User) (db db' : Db) : Type 0 where
  created :
      (body : ExpenseCreate) (now key : ℕ)
      → create_expense body user now key db ≡ ok db'
      → Change user db db'
  edited :
      (key : ℕ) (body : ExpenseUpdate)
      → update_expense key body user db ≡ ok db'
      → Change user db db'
  deleted : (key : ℕ) → delete_expense key user db ≡ ok db' → Change user db db'
  settled : (key now : ℕ) → mark_expense_paid key user now db ≡ ok db' → Change user db db'

-- Writing back a row of the caller's restaurant.
save_keeps :
    (rid key home : ℕ) (s e : Expense) (db : Db)
    → rid ≢ home
    → HasExpenseIds db.expenses
    → select (is_scoped key home) db.expenses ≡ some e
    → s.id ≡ e.id
    → s.restaurant_id ≡ e.restaurant_id
    → select_all (belongs_to rid) (save s db).expenses ≡ select_all (belongs_to rid) db.expenses
save_keeps rid key home s e db other ids found own at =
    let tested = select-test (is_scoped key home) db.expenses e found in
    let same : s.id ≡ key = ground arith in
    let here : s.restaurant_id ≢ rid = ground arith in
    subst
      (λ k.
        select_all (belongs_to rid) (update (is_expense k) (λ _. s) db.expenses)
        ≡ select_all (belongs_to rid) db.expenses)
      (sym same)
      (select_all-update key rid s db.expenses here
        (no_other key home rid db.expenses e (ground arith) ids found))

select_all-snoc :
    (test : Expense → Bool) (es : List Expense) (x : Expense)
    → test x ≡ false
    → select_all test (es ++ x ∷ []) ≡ select_all test es
select_all-snoc test [] x h = ground arith
select_all-snoc test (e ∷ es) x h = ground (arith, select_all-snoc test es x)

-- Recording, editing, deleting or paying an expense, where no two expenses share an id, leaves the
-- rows of every other restaurant, and their order, as they were.
pub change_keeps_tenants :
    (user : User) (rid : ℕ) (db db' : Db)
    → rid ≢ user.restaurant_id
    → HasExpenseIds db.expenses
    → Change user db db'
    → select_all (belongs_to rid) db'.expenses ≡ select_all (belongs_to rid) db.expenses
unfolding create_expense new_expense update_expense edit_expense delete_expense scoped paid_row
change_keeps_tenants user rid db db' other ids (created body now key done) =
    let (inner, _, _) = behind_guard user _ done in
    let (category, _, same) =
      or_raise-eq-ok (parse_category body.category) unknown_category _ inner in
    subst (Keeps rid db) (ok-injective same) (
      select_all-snoc (belongs_to rid) db.expenses (new_expense body category user now key)
        (ground arith))
change_keeps_tenants user rid db db' other ids (edited key body done) =
    let (inner, _, _) = behind_guard user _ done in
    let (e, found, rest) =
      or_raise-eq-ok (select (is_scoped key user.restaurant_id) db.expenses) expense_not_found _
        inner in
    let (category, _, same) = bind-eq-ok (category_of body e) _ rest in
    subst (Keeps rid db) (ok-injective same) (
      save_keeps rid key user.restaurant_id (edit_expense body category e) e db other ids found refl
        refl)
change_keeps_tenants user rid db db' other ids (deleted key done) =
    let (inner, _, _) = behind_guard user _ done in
    let (e, found, same) =
      or_raise-eq-ok (select (is_scoped key user.restaurant_id) db.expenses) expense_not_found _
        inner in
    let tested = select-test (is_scoped key user.restaurant_id) db.expenses e found in
    let own : e.id ≡ key = ground arith in
    subst (Keeps rid db) (ok-injective same) (
      rw own (
        select_all-delete key rid db.expenses
          (no_other key user.restaurant_id rid db.expenses e (ground arith) ids found)))
change_keeps_tenants user rid db db' other ids (settled key now done) =
    let (e, found, _, same, _) = paid-eq-ok key user now db db' done in
    subst (Keeps rid db) (sym same)
      (save_keeps rid key user.restaurant_id (paid_row now e) e db other ids found refl refl)
