-- ===== src/Order.antt =====
-- models/order.py: orders, their lines and payments, and the money helpers of `Order`.
pub mod Money
use karibu.Prelude.{
  ℕ, ◌+◌, ◌-◌, ◌*◌, String, Bool, true, false, Option, none, some, List, ltb, leb, ◌==◌, str_eq,
  if◌then◌else◌, sum_of,
}

pub data OrderStatus : Type 0 where
  pending preparing ready served completed cancelled : OrderStatus

pub data PaymentStatus : Type 0 where
  unpaid partial paid : PaymentStatus

pub data PaymentMethod : Type 0 where
  cash mpesa card debt : PaymentMethod

-- A status as a request spells it; `none` is a text outside `OrderStatus.ALL`.
unfoldable pub parse_status : String → Option OrderStatus
parse_status s =
    if str_eq s "pending"
    then some OrderStatus.pending
    else if str_eq s "preparing"
    then some OrderStatus.preparing
    else if str_eq s "ready"
    then some OrderStatus.ready
    else if str_eq s "served"
    then some OrderStatus.served
    else if str_eq s "completed"
    then some OrderStatus.completed
    else if str_eq s "cancelled"
    then some OrderStatus.cancelled
    else none

unfoldable pub parse_method : String → Option PaymentMethod
parse_method s =
    if str_eq s "cash"
    then some PaymentMethod.cash
    else if str_eq s "mpesa"
    then some PaymentMethod.mpesa
    else if str_eq s "card"
    then some PaymentMethod.card
    else if str_eq s "debt"
    then some PaymentMethod.debt
    else none

pub record OrderItem : Type 0 where
  pub menu_item_id : ℕ
  pub name_snapshot : String
  pub unit_price_cents : ℕ
  pub quantity : ℕ
  pub modifiers : Option String

pub record Payment : Type 0 where
  pub method : PaymentMethod
  pub amount_cents : ℕ
  pub reference : Option String
  pub recorded_by_id : Option ℕ
  pub received_at : ℕ

pub record Order : Type 0 where
  pub id : ℕ
  pub reference : String
  pub order_type : String
  pub status : OrderStatus
  pub payment_status : PaymentStatus
  pub table_number : Option String
  pub customer_name : Option String
  pub notes : Option String
  pub subtotal_cents : ℕ
  pub tax_cents : ℕ
  pub discount_cents : ℕ
  pub total_cents : ℕ
  pub server_id : Option ℕ
  pub restaurant_id : ℕ
  pub items : List OrderItem
  pub payments : List Payment
  pub receipt_token : Option ℕ
  pub created_at : ℕ

-- `OrderItem.line_total_cents`
unfoldable pub line_total_cents : OrderItem → ℕ
line_total_cents li = li.unit_price_cents * li.quantity

-- `Order.recalculate`; `max(subtotal - discount, 0)` is the subtraction of ℕ
unfoldable pub recalculate : Order → Order
unfolding line_total_cents
recalculate o =
    let subtotal = sum_of line_total_cents o.items in
    record o { subtotal_cents = subtotal; tax_cents = 0; total_cents = subtotal - o.discount_cents }

-- `Order.amount_paid_cents`
unfoldable pub amount_paid_cents : Order → ℕ
amount_paid_cents o = sum_of (λ (p : Payment). p.amount_cents) o.payments

-- `Order.balance_cents`, where the maximum with 0 is again the subtraction of ℕ
unfoldable pub balance_cents : Order → ℕ
balance_cents o = o.total_cents - amount_paid_cents o

unfoldable pub payment_status_of : ℕ → ℕ → PaymentStatus
payment_status_of amount total =
    if leb amount 0
    then PaymentStatus.unpaid
    else if ltb amount total
    then PaymentStatus.partial
    else PaymentStatus.paid

-- `Order.sync_payment_status`
unfoldable pub sync_payment_status : Order → Order
unfolding payment_status_of
sync_payment_status o = record o {
  payment_status = payment_status_of (amount_paid_cents o) o.total_cents;
}

abbrev pub is_paid : PaymentStatus → Bool
is_paid PaymentStatus.paid = true
is_paid _ = false

abbrev pub is_served : OrderStatus → Bool
is_served OrderStatus.served = true
is_served _ = false

abbrev pub is_cancelled : OrderStatus → Bool
is_cancelled OrderStatus.cancelled = true
is_cancelled _ = false
