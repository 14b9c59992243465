-- ===== src/Sales.antt =====
-- routers/orders.py: placing an order, its status, its payments, and cancelling it. The keys of new
-- rows, the random reference and the time are arguments; a response is a view of the rows written.
pub mod Debts
pub mod Owed
pub mod Payments
pub mod Collected
pub mod Repayments
pub mod Orders
pub mod Placing
use karibu.Prelude.{
  ℕ, ◌+◌, String, Bool, true, false, ◌&&◌, ◌||◌, not, Option, none, some, List, [], ◌∷◌, ◌++◌, ltb,
  ◌==◌, str_eq, if◌then◌else◌, select, update, strip_or_none, is_some, is_id, Decimal, to_cents,
  sum_ℤ,
}
use karibu.Prelude.Int.{ℤ, pos, ◌+ℤ◌, ◌-ℤ◌, ltb_ℤ, leb_ℤ}
use karibu.Api.{
  Result, ok, err, ◌>>=◌, ◌>>◌, raise_if, or_raise, discount_not_permitted, order_not_found,
  menu_item_gone, invalid_status, exceeds_balance, customer_name_required, invalid_payment_method,
  already_paid, already_cancelled,
}
use karibu.Access.{User, is_manager, require_roles, managers}
use karibu.Order.{
  Order, OrderItem, OrderStatus, Payment, PaymentMethod, PaymentStatus, parse_status, parse_method,
  recalculate, amount_paid_cents, balance_cents, sync_payment_status, is_paid, is_served,
  is_cancelled,
}
use karibu.Debt.{Debt, DebtStatus, is_outstanding}
use karibu.Stock.{MenuItem}
use karibu.Stock.Deduction.{apply_sale, reverse_sale}
use karibu.Db.{Db, is_order}

-- `OrderLineIn`, `OrderCreate`, `OrderPaymentIn` of schemas/order.py
pub record OrderLineIn : Type 0 where
  pub menu_item_id : ℕ
  pub quantity : ℕ
  pub modifiers : Option String

pub record OrderCreate : Type 0 where
  pub order_type : String
  pub table_number : Option String
  pub customer_name : Option String
  pub notes : Option String
  pub discount : Decimal
  pub items : List OrderLineIn

pub record OrderPaymentIn : Type 0 where
  pub method : String
  pub amount : Decimal
  pub reference : Option String
  pub customer_name : Option String
  pub customer_phone : Option String
  pub due_date : Option ℕ

abbrev pub has_reference : String → Order → Bool
has_reference ref o = str_eq o.reference ref

-- `_generate_reference`: `draws` are the texts of the ten draws, `last` that of the longer one.
unfoldable pub generate_reference : List String → String → List Order → String
generate_reference [] last orders = last
generate_reference (ref ∷ draws) last orders =
    let next = generate_reference draws last orders in
    if is_some (select (has_reference ref) orders) then next else ref

abbrev pub in_tenant : ℕ → ℕ → Order → Bool
in_tenant key rid o = o.id == key && o.restaurant_id == rid

-- `_get_scoped_order`
unfoldable pub get_scoped_order : Db → ℕ → ℕ → Result Order
get_scoped_order db key rid = or_raise (select (in_tenant key rid) db.orders) order_not_found

abbrev pub on_menu : ℕ → ℕ → MenuItem → Bool
on_menu key rid m = m.id == key && m.restaurant_id == rid && not m.is_archived

-- the loop of `create_order` over the lines: names and prices are copied from the live menu
unfoldable pub snapshot : List MenuItem → ℕ → List OrderLineIn → Result (List OrderItem)
snapshot menu rid [] = ok []
snapshot menu rid (line ∷ lines) = do
  menu_item ← or_raise (select (on_menu line.menu_item_id rid) menu) menu_item_gone
  rest ← snapshot menu rid lines
  ok (
      record {
        menu_item_id = menu_item.id;
        name_snapshot = menu_item.name;
        unit_price_cents = menu_item.price_cents;
        quantity = line.quantity;
        modifiers = line.modifiers;
      }
      ∷ rest)

-- the `Order(…)` of `create_order` with its items, before `recalculate`
unfoldable pub new_order : OrderCreate → User → String → ℕ → ℕ → List OrderItem → Order
new_order body user reference key now items = record {
  id = key;
  reference = reference;
  order_type = body.order_type;
  status = OrderStatus.pending;
  payment_status = PaymentStatus.unpaid;
  table_number = body.table_number;
  customer_name = body.customer_name;
  notes = body.notes;
  subtotal_cents = 0;
  tax_cents = 0;
  discount_cents = to_cents body.discount;
  total_cents = 0;
  server_id = some user.id;
  restaurant_id = user.restaurant_id;
  items = items;
  payments = [];
  receipt_token = none;
  created_at = now;
}

-- `create_order`; `key` is the order's id, `movement_id` the first of the movements' ids
unfoldable pub create_order : OrderCreate → User → String → ℕ → ℕ → ℕ → Db → Result Db
create_order body user reference key movement_id now db = do
  raise_if (ltb 0 body.discount && not (is_manager user.role)) discount_not_permitted
  items ← snapshot db.menu_items user.restaurant_id body.items
  let order = recalculate (new_order body user reference key now items)
  ok (
      apply_sale order (some user.id) now movement_id
        (record db { orders = db.orders ++ order ∷ [] }))

-- The changed order is written back to its row.
abbrev pub save_order : Order → List Order → List Order
save_order o = update (is_order o.id) (λ _. o)

-- `update_status`
unfoldable pub update_status : ℕ → String → User → Db → Result Db
update_status key text user db = do
  order ← get_scoped_order db key user.restaurant_id
  status ← or_raise (parse_status text) invalid_status
  ok (record db { orders = save_order (record order { status = status }) db.orders })

-- `Debt.order_id == order.id, Debt.status == OUTSTANDING`, and what such a debt adds to the sum
unfoldable pub owed_on : ℕ → Debt → ℤ
owed_on key d =
    if d.order_id == key && is_outstanding d.status
    then pos d.amount_cents -ℤ pos d.paid_cents
    else pos 0

-- `coalesce(sum(amount_cents - paid_cents), 0)` over the outstanding debts of an order
unfoldable pub owed : ℕ → List Debt → ℤ
owed key = sum_ℤ (owed_on key)

-- `covered and order.status == SERVED` completes the order
unfoldable pub complete_if : Bool → Order → Order
complete_if test o = record o {
  status = if test && is_served o.status then OrderStatus.completed else o.status;
}

-- the end of `record_payment`, after the flush of the new payment or debt
unfoldable pub settle : Order → List Debt → Db → Db
unfolding complete_if
settle order debts db =
    let synced = sync_payment_status order in
    let covered =
      leb_ℤ (pos order.total_cents) (pos (amount_paid_cents order) +ℤ owed order.id debts) in
    record db { orders = save_order (complete_if covered synced) db.orders; debts = debts }

-- `Debt(…)` in `record_payment`
unfoldable pub new_debt : OrderPaymentIn → Order → User → String → ℕ → ℕ → Debt
new_debt body order user name now new_id = record {
  id = new_id;
  restaurant_id = user.restaurant_id;
  order_id = order.id;
  customer_name = name;
  customer_phone = body.customer_phone;
  amount_cents = to_cents body.amount;
  paid_cents = 0;
  due_date = body.due_date;
  status = DebtStatus.outstanding;
  settled_at = none;
  recorded_by_id = some user.id;
  created_at_idx = now;
}

-- `Payment(…)` in `record_payment`, on the order
unfoldable pub with_payment : PaymentMethod → OrderPaymentIn → User → ℕ → Order → Order
with_payment method body user now order = record order {
  payments =
      order.payments
      ++ record {
        method = method;
        amount_cents = to_cents body.amount;
        reference = body.reference;
        recorded_by_id = some user.id;
        received_at = now;
      }
        ∷ [];
}

-- the branches of `record_payment` on the method
unfoldable pub take_payment :
    Option PaymentMethod → OrderPaymentIn → Order → User → ℕ → ℕ → Db → Result Db
take_payment none body order user now new_id db = err invalid_payment_method
take_payment (some PaymentMethod.debt) body order user now new_id db = do
  name ← or_raise (strip_or_none body.customer_name) customer_name_required
  ok (settle order (db.debts ++ new_debt body order user name now new_id ∷ []) db)
take_payment (some m) body order user now new_id db =
    ok (settle (with_payment m body user now order) db.debts db)

-- `order.balance_cents - existing_outstanding_debt`, which may be negative
unfoldable pub remaining : Order → List Debt → ℤ
remaining order debts = pos (balance_cents order) -ℤ owed order.id debts

-- `record_payment`; `new_id` is the id of a new debt
unfoldable pub record_payment : ℕ → OrderPaymentIn → User → ℕ → ℕ → Db → Result Db
record_payment key body user now new_id db = do
  order ← get_scoped_order db key user.restaurant_id
  raise_if (ltb_ℤ (remaining order db.debts) (pos (to_cents body.amount))) exceeds_balance
  take_payment (parse_method body.method) body order user now new_id db

-- `cancel_order`
unfoldable pub cancel_order : ℕ → User → ℕ → ℕ → Db → Result Db
cancel_order key user now movement_id db = do
  caller ← require_roles managers user
  order ← get_scoped_order db key caller.restaurant_id
  raise_if (is_paid order.payment_status) already_paid
  raise_if (is_cancelled order.status) already_cancelled
  let cancelled = record order { status = OrderStatus.cancelled }
  ok (
      reverse_sale cancelled (some caller.id) now movement_id
        (record db { orders = save_order cancelled db.orders }))
