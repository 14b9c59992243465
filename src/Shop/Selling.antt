-- ===== src/Shop/Selling.antt =====
-- The requests on orders and debts (routers/orders.py, routers/debts.py) keep the ledger of the
-- shelf reconciled.
use karibu.Prelude.{ℕ, ◌≡◌, refl, arith, String, List, Option, some, not, ltb, ◌&&◌}
use mathlib.Core.Path.{subst}
use karibu.Api.{ok, bind-eq-ok, or_raise-eq-ok, raise_if-eq-ok, ok-injective}
use karibu.Access.{User, is_manager}
use karibu.Access.Laws.{behind_guard}
use karibu.Order.{
  Order, OrderStatus, PaymentMethod, parse_status, parse_method, recalculate, is_paid, is_cancelled,
}
use karibu.Db.{Db}
use karibu.Sales.{
  OrderCreate, OrderPaymentIn, create_order, update_status, record_payment, cancel_order,
  get_scoped_order, take_payment, settle, snapshot, new_order,
}
use karibu.Sales.Debts.{DebtPaymentIn, pay_debt}
use karibu.Sales.Repayments.{pay_debt-eq-ok}
use karibu.Stock.Ledger.{IsReconciled}
use karibu.Stock.Keeps.{sale-IsReconciled}

-- The shelf and its movements are those of `db`.
pub record SameShelf (db db' : Db) : Type 0 where
  pub items : db'.stock_items ≡ db.stock_items
  pub movements : db'.movements ≡ db.movements

pub SameShelf-IsReconciled : {db db' : Db} → SameShelf db db' → IsReconciled db → IsReconciled db'
SameShelf-IsReconciled s h = record {
  tallies = rw (s.items, s.movements) h.tallies;
  balances = rw s.movements h.balances;
}

-- The rows of the orders play no part in the ledger.
with_orders-IsReconciled :
    (db : Db) (orders : List Order) → IsReconciled db → IsReconciled (record db { orders = orders })
with_orders-IsReconciled db orders h = record { tallies = h.tallies; balances = h.balances }

pub create_order-IsReconciled :
    (body : OrderCreate) (user : User) (reference : String) (key mid now : ℕ) (db db' : Db)
    → IsReconciled db
    → create_order body user reference key mid now db ≡ ok db'
    → IsReconciled db'
unfolding create_order
create_order-IsReconciled body user reference key mid now db db' h done =
    let (_, rest) = raise_if-eq-ok (ltb 0 body.discount && not (is_manager user.role)) _ _ done in
    let (items, _, same) =
      bind-eq-ok (snapshot db.menu_items user.restaurant_id body.items) _ rest in
    let order = recalculate (new_order body user reference key now items) in
    subst IsReconciled (ok-injective same)
      (sale-IsReconciled order (some user.id) now mid _ (with_orders-IsReconciled db _ h)).0

pub cancel_order-IsReconciled :
    (key : ℕ) (user : User) (now mid : ℕ) (db db' : Db)
    → IsReconciled db
    → cancel_order key user now mid db ≡ ok db'
    → IsReconciled db'
unfolding cancel_order
cancel_order-IsReconciled key user now mid db db' h done =
    let (inner, _, _) = behind_guard user _ done in
    let (o, _, rest) = bind-eq-ok (get_scoped_order db key user.restaurant_id) _ inner in
    let (_, rest1) = raise_if-eq-ok (is_paid o.payment_status) _ _ rest in
    let (_, same) = raise_if-eq-ok (is_cancelled o.status) _ _ rest1 in
    let cancelled = record o { status = OrderStatus.cancelled } in
    subst IsReconciled (ok-injective same)
      (sale-IsReconciled cancelled (some user.id) now mid _ (with_orders-IsReconciled db _ h)).1

pub update_status-SameShelf :
    (key : ℕ) (text : String) (user : User) (db db' : Db)
    → update_status key text user db ≡ ok db'
    → SameShelf db db'
unfolding update_status
update_status-SameShelf key text user db db' done =
    let (o, _, rest) = bind-eq-ok (get_scoped_order db key user.restaurant_id) _ done in
    let (s, _, same) = or_raise-eq-ok (parse_status text) _ _ rest in
    subst (SameShelf db) (ok-injective same) (record { items = refl; movements = refl })

take_payment-SameShelf :
    (m : Option PaymentMethod) (body : OrderPaymentIn) (o : Order) (user : User) (now new_id : ℕ)
    (db db' : Db)
    → take_payment m body o user now new_id db ≡ ok db'
    → SameShelf db db'
unfolding take_payment settle
take_payment-SameShelf m body o user now new_id db db' done = ground arith

pub record_payment-SameShelf :
    (key : ℕ) (body : OrderPaymentIn) (user : User) (now new_id : ℕ) (db db' : Db)
    → record_payment key body user now new_id db ≡ ok db'
    → SameShelf db db'
unfolding record_payment
record_payment-SameShelf key body user now new_id db db' done =
    let (o, _, rest) = bind-eq-ok (get_scoped_order db key user.restaurant_id) _ done in
    let (_, taken) = raise_if-eq-ok _ _ _ rest in
    take_payment-SameShelf (parse_method body.method) body o user now new_id db db' taken

pub pay_debt-SameShelf :
    (key : ℕ) (body : DebtPaymentIn) (user : User) (now : ℕ) (db db' : Db)
    → pay_debt key body user now db ≡ ok db'
    → SameShelf db db'
pay_debt-SameShelf key body user now db db' done =
    let r = pay_debt-eq-ok key body user now db db' done in
    subst (SameShelf db) r.written (record { items = refl; movements = refl })
