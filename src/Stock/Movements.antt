-- ===== src/Stock/Movements.antt =====
-- routers/stock.py: `record_movement` and `list_movements`; a costed delivery writes its expense.
-- The text of the expense's note, which the code formats from a float, is an argument.
use karibu.Prelude.{
  ℕ, String, Bool, true, false, ◌&&◌, Option, none, some, List, [], ◌∷◌, ◌++◌, ◌==◌, leb,
  if◌then◌else◌, select_all, update, strip_or_none, Decimal, to_cents, to_milli, sum_ℤ,
}
use karibu.Prelude.Int.{ℤ, pos, ◌+ℤ◌, ltb_ℤ}
use karibu.Api.{Result, ok, ◌>>=◌, ◌>>◌, raise_if, more_than_recorded_stock}
use karibu.Access.{User, require_roles, managers}
use karibu.Stock.{StockItem, StockMovement, MovementReason, is_outgoing}
use karibu.Stock.Routes.{MovementCreate, get_item}
use karibu.Expense.{Expense, ExpenseCategory}
use karibu.Db.{Db, is_item}

-- `round(body.cost * 100) if body.cost else None`
unfoldable pub cost_cents : Option Decimal → Option ℕ
cost_cents none = none
cost_cents (some c) = if c == 0 then none else some (to_cents c)

abbrev pub is_received : MovementReason → Bool
is_received MovementReason.received = true
is_received _ = false

-- `(body.supplier or "").strip() or item.supplier`
abbrev supplier_of : MovementCreate → StockItem → Option String
supplier_of body item = elim (strip_or_none body.supplier) [
  | none ↦ item.supplier
  | some s ↦ some s
]

-- the `Expense` that a delivery of `amount` cents writes
unfoldable pub expense_of : MovementCreate → StockItem → User → String → ℕ → ℕ → ℕ → ℕ → Expense
expense_of body item user what now movement_id expense_id amount = record {
  id = expense_id;
  restaurant_id = user.restaurant_id;
  category = ExpenseCategory.stock;
  amount_cents = amount;
  note = some what;
  payee = supplier_of body item;
  method = if body.paid then "cash" else "credit";
  reference = none;
  is_paid = body.paid;
  paid_at = if body.paid then some now else none;
  due_date = none;
  stock_movement_id = some movement_id;
  spent_at = now;
  recorded_by_id = some user.id;
}

-- `if cost_cents and body.reason == RECEIVED`
unfoldable pub costed_delivery : Option ℕ → MovementReason → Option ℕ
costed_delivery none reason = none
costed_delivery (some c) reason =
    if c == 0 then none else if is_received reason then some c else none

-- The expense of a delivery, when it has a cost.
unfoldable pub delivery_expense :
    MovementCreate → StockItem → User → String → ℕ → ℕ → ℕ → List Expense
unfolding costed_delivery expense_of
delivery_expense body item user what now movement_id expense_id =
    elim (costed_delivery (cost_cents body.cost) body.reason) [
      | none ↦ []
      | some c ↦ expense_of body item user what now movement_id expense_id c ∷ []
    ]

unfoldable pub new_movement : MovementCreate → StockItem → User → ℕ → ℕ → StockMovement
new_movement body item user now movement_id = record {
  id = movement_id;
  stock_item_id = item.id;
  delta_milli = to_milli body.quantity;
  reason = body.reason;
  note = strip_or_none body.note;
  balance_after_milli = item.quantity_milli +ℤ to_milli body.quantity;
  total_cost_cents = cost_cents body.cost;
  recorded_by_id = some user.id;
  occurred_at = now;
}

-- The three rows, written in one transaction.
unfoldable pub commit_movement : StockMovement → List Expense → Db → Db
commit_movement m expenses db = record db {
  stock_items =
      update (is_item m.stock_item_id)
        (λ (i : StockItem). record i { quantity_milli = m.balance_after_milli }) db.stock_items;
  movements = db.movements ++ m ∷ [];
  expenses = db.expenses ++ expenses;
}

-- `record_movement`; `movement_id` and `expense_id` are the ids of the new rows
unfoldable pub record_movement : ℕ → MovementCreate → User → String → ℕ → ℕ → ℕ → Db → Result Db
record_movement key body user what now movement_id expense_id db = do
  caller ← require_roles managers user
  item ← get_item db caller key
  raise_if (ltb_ℤ (item.quantity_milli +ℤ to_milli body.quantity) (pos 0)) more_than_recorded_stock
  ok (
      commit_movement (new_movement body item caller now movement_id)
        (delivery_expense body item caller what now movement_id expense_id) db)

-- `occurred_at >= since` on the movements of one item
abbrev recent : ℕ → ℕ → StockMovement → Bool
recent key since m = m.stock_item_id == key && leb since m.occurred_at

-- the sum behind `consumed` in `list_movements`, before `abs` and the division
unfoldable pub consumed : ℕ → ℕ → List StockMovement → ℤ
unfolding is_outgoing
consumed key since ms =
    sum_ℤ (λ (m : StockMovement). m.delta_milli)
      (select_all (λ (m : StockMovement). recent key since m && is_outgoing m.reason) ms)
