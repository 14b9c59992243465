-- ===== src/Shop.antt =====
-- The point of sale as a whole: every request of routers/orders.py, routers/debts.py,
-- routers/stock.py, routers/menu.py and routers/expenses.py that writes, and the states that
-- sequences of requests reach.
pub mod Stocking
pub mod Selling
pub mod Dishes
pub mod Linking
pub mod SameMenu
pub mod Retiring
pub mod Invariant
use karibu.Prelude.{ℕ, ◌≡◌, ◌≢◌, String, [], All}
use karibu.Prelude.Int.{pos}
use karibu.Api.{Result, ok}
use karibu.Access.{User}
use karibu.Debt.{Debt}
use karibu.Db.{Db}
use karibu.Sales.{
  OrderCreate, OrderPaymentIn, create_order, update_status, record_payment, cancel_order, owed,
}
use karibu.Sales.Debts.{DebtPaymentIn, pay_debt}
use karibu.Stock.Routes.{
  StockItemCreate, StockItemUpdate, MovementCreate, RecipeSet, create_stock_item, update_stock_item,
  archive_stock_item,
}
use karibu.Stock.Movements.{record_movement}
use karibu.Stock.Recipes.{set_recipe}
use karibu.Stock.Create.{IsFresh}
use karibu.Menu.{MenuRequest, handle_menu}
use karibu.Expenses.Requests.{ExpenseRequest, handle_expense}

-- A request with the ids and the time that its handler draws.
pub data Request : Type 0 where
  place : OrderCreate → String → ℕ → ℕ → ℕ → Request
  restatus : ℕ → String → Request
  pay : ℕ → OrderPaymentIn → ℕ → ℕ → Request
  cancel : ℕ → ℕ → ℕ → Request
  repay : ℕ → DebtPaymentIn → ℕ → Request
  stock : StockItemCreate → ℕ → ℕ → ℕ → Request
  edit : ℕ → StockItemUpdate → Request
  archive : ℕ → Request
  move : ℕ → MovementCreate → String → ℕ → ℕ → ℕ → Request
  link : ℕ → RecipeSet → Request
  on_menu : MenuRequest → Request
  spend : ExpenseRequest → Request

unfoldable pub handle : Request → User → Db → Result Db
handle (place body ref key mid now) user db = create_order body user ref key mid now db
handle (restatus key text) user db = update_status key text user db
handle (pay key body now new_id) user db = record_payment key body user now new_id db
handle (cancel key now mid) user db = cancel_order key user now mid db
handle (repay key body now) user db = pay_debt key body user now db
handle (stock body key mid now) user db = create_stock_item body user key mid now db
handle (edit key body) user db = update_stock_item key body user db
handle (archive key) user db = archive_stock_item key user db
handle (move key body what now mid eid) user db = record_movement key body user what now mid eid db
handle (link key body) user db = set_recipe key body user db
handle (on_menu r) user db = handle_menu r user db
handle (spend r) user db = handle_expense r user db

-- The ids drawn are of no row yet, as those of `uuid4` are.
abbrev pub DrawsFresh : Request → Db → Type 0
DrawsFresh (place body ref key mid now) db = owed key db.debts ≡ pos 0
DrawsFresh (pay key body now new_id) db = All (λ (e : Debt). e.id ≢ new_id) db.debts
DrawsFresh (stock body key mid now) db = IsFresh key db
DrawsFresh _ db = Unit

-- One request that is accepted.
pub data Step (db : Db) (db' : Db) : Type 0 where
  accepted : (r : Request) (user : User) → DrawsFresh r db → handle r user db ≡ ok db' → Step db db'

abbrev pub no_rows : Db
no_rows = record {
  orders = [];
  debts = [];
  categories = [];
  menu_items = [];
  stock_items = [];
  movements = [];
  recipes = [];
  expenses = [];
}

-- What is reached from empty tables; a request that is refused changes nothing.
pub data Reach : Db → Type 0 where
  opened : Reach no_rows
  next : {db db' : Db} → Reach db → Step db db' → Reach db'
