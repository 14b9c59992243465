-- ===== src/Db.antt =====
-- The tables of the point of sale, as the request handlers of routers/ see them. `expire_on_commit`
-- is off and each request has its own session, so a handler is a function from tables to tables.
use karibu.Prelude.{ℕ, Bool, List, ◌==◌}
use karibu.Order.{Order}
use karibu.Debt.{Debt}
use karibu.Stock.{StockItem, StockMovement, RecipeLine, MenuItem, Category}
use karibu.Expense.{Expense}

pub record Db : Type 0 where
  pub orders : List Order
  pub debts : List Debt
  pub categories : List Category
  pub menu_items : List MenuItem
  pub stock_items : List StockItem
  pub movements : List StockMovement
  pub recipes : List RecipeLine
  pub expenses : List Expense

-- `StockItem.id == key`, and so for the other tables
abbrev pub is_item : ℕ → StockItem → Bool
is_item key i = i.id == key

abbrev pub is_order : ℕ → Order → Bool
is_order key o = o.id == key

abbrev pub is_debt : ℕ → Debt → Bool
is_debt key d = d.id == key
