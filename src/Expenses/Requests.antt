-- ===== src/Expenses/Requests.antt =====
-- The requests to routers/expenses.py that write; none writes another table.
use karibu.Prelude.{ℕ, ◌≡◌, sym, List}
use karibu.Api.{Result, ok, bind-eq-ok, or_raise-eq-ok, ok-injective}
use karibu.Access.{User}
use karibu.Access.Laws.{behind_guard}
use karibu.Expense.{Expense, parse_category}
use karibu.Expenses.{
  ExpenseCreate, ExpenseUpdate, scoped, create_expense, update_expense, delete_expense,
  mark_expense_paid, category_of,
}
use karibu.Db.{Db}
use karibu.Expenses.Effects.{paid-eq-ok}

-- A request with the id and the time that its handler draws.
pub data ExpenseRequest : Type 0 where
  add_expense : ExpenseCreate → ℕ → ℕ → ExpenseRequest
  edit_expense_of : ℕ → ExpenseUpdate → ExpenseRequest
  drop_expense : ℕ → ExpenseRequest
  settle_expense : ℕ → ℕ → ExpenseRequest

unfoldable pub handle_expense : ExpenseRequest → User → Db → Result Db
handle_expense (add_expense body now key) user db = create_expense body user now key db
handle_expense (edit_expense_of key body) user db = update_expense key body user db
handle_expense (drop_expense key) user db = delete_expense key user db
handle_expense (settle_expense key now) user db = mark_expense_paid key user now db

-- `db'` is `db` but for the expenses.
pub record ExpensesOnly (db db' : Db) : Type 0 where
  pub expenses : List Expense
  pub rest : record db { expenses = expenses } ≡ db'

pub handle_expense-ExpensesOnly :
    (r : ExpenseRequest) (user : User) (db db' : Db)
    → handle_expense r user db ≡ ok db'
    → ExpensesOnly db db'
unfolding handle_expense create_expense update_expense delete_expense
handle_expense-ExpensesOnly (add_expense body now key) user db db' done =
    let (inner, _, _) = behind_guard user _ done in
    let (category, _, same) = or_raise-eq-ok (parse_category body.category) _ _ inner in
    record { expenses = _; rest = ok-injective same }
handle_expense-ExpensesOnly (edit_expense_of key body) user db db' done =
    let (inner, _, _) = behind_guard user _ done in
    let (e, _, rest) = bind-eq-ok (scoped db key user.restaurant_id) _ inner in
    let (category, _, same) = bind-eq-ok (category_of body e) _ rest in
    record { expenses = _; rest = ok-injective same }
handle_expense-ExpensesOnly (drop_expense key) user db db' done =
    let (inner, _, _) = behind_guard user _ done in
    let (e, _, same) = bind-eq-ok (scoped db key user.restaurant_id) _ inner in
    record { expenses = _; rest = ok-injective same }
handle_expense-ExpensesOnly (settle_expense key now) user db db' done =
    let (e, _, _, same, _) = paid-eq-ok key user now db db' done in
    record { expenses = _; rest = sym same }
