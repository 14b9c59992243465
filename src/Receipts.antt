-- ===== src/Receipts.antt =====
-- routers/receipts.py: the link to a receipt, and what it shows. A token is a number, since it is
-- only compared; amounts are in cents.
pub mod Shared
use karibu.Prelude.{
  ℕ, ◌*◌, ◌-◌, String, Bool, ◌&&◌, Option, none, some, List, [], ◌∷◌, map, leb, ltb, select, is_id,
}
use karibu.Api.{Result, ok, ◌>>=◌, or_raise, receipt_not_found}
use karibu.Access.{User}
use karibu.Order.{Order, OrderItem, Payment, PaymentMethod, amount_paid_cents, balance_cents}
use karibu.Sales.{get_scoped_order, save_order}
use karibu.Db.{Db}

-- `_receipt_dict`, but for the names of the restaurant and of the server
pub record Receipt : Type 0 where
  pub reference : String
  pub created_at : ℕ
  pub table_number : Option String
  pub order_type : String
  pub items : List (String × ℕ × ℕ × ℕ)
  pub subtotal : ℕ
  pub discount : ℕ
  pub total : ℕ
  pub amount_paid : ℕ
  pub balance : ℕ
  pub payments : List (PaymentMethod × ℕ × ℕ)
  pub is_paid : Bool

abbrev pub item_row : OrderItem → String × ℕ × ℕ × ℕ
item_row i = (i.name_snapshot, i.quantity, i.unit_price_cents, i.unit_price_cents * i.quantity)

abbrev pub payment_row : Payment → PaymentMethod × ℕ × ℕ
payment_row p = (p.method, p.amount_cents, p.received_at)

unfoldable pub receipt_of : Order → Receipt
receipt_of o = record {
  reference = o.reference;
  created_at = o.created_at;
  table_number = o.table_number;
  order_type = o.order_type;
  items = map item_row o.items;
  subtotal = o.subtotal_cents;
  discount = o.discount_cents;
  total = o.total_cents;
  amount_paid = amount_paid_cents o;
  balance = balance_cents o;
  payments = map payment_row o.payments;
  is_paid = leb o.total_cents (amount_paid_cents o) && ltb 0 o.total_cents;
}

abbrev pub with_token : ℕ → Order → Order
with_token token o = record o { receipt_token = some token }

-- `issue_receipt`: the token of the link; `fresh` is what `generate_link_token` draws
unfoldable pub issue_receipt : ℕ → User → ℕ → Db → Result (ℕ × Db)
issue_receipt key user fresh db = do
  order ← get_scoped_order db key user.restaurant_id
  elim order.receipt_token [
    | some token ↦ ok (token, db)
    | none ↦ ok (fresh, record db { orders = save_order (with_token fresh order) db.orders })
  ]

abbrev pub has_token : ℕ → Order → Bool
has_token token o = is_id o.receipt_token token

-- `public_receipt`
unfoldable pub public_receipt : ℕ → Db → Result Receipt
unfolding receipt_of
public_receipt token db = do
  order ← or_raise (select (has_token token) db.orders) receipt_not_found
  ok (receipt_of order)
