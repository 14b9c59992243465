-- ===== src/Sales/Orders.antt =====
-- Placing an order, changing its status and cancelling it (routers/orders.py) keep the books sound.
use mathlib.Core.Path.{subst}
use karibu.Prelude.{
  ℕ, ◌+◌, ◌≡◌, String, Option, some, [], ◌∷◌, arith, select, All-update, All-select,
}
use karibu.Prelude.Int.{ℤ}
use karibu.Api.{ok, or_raise-eq-ok, raise_if-eq-ok, ok-injective}
use karibu.Access.{User}
use karibu.Access.Laws.{behind_guard}
use karibu.Order.{Order, OrderStatus, amount_paid_cents, parse_status, is_paid, is_cancelled}
use karibu.Stock.Deduction.{Totals, move_item, move_all, reverse_sale}
use karibu.Sales.{update_status, cancel_order, get_scoped_order, save_order, in_tenant}
use karibu.Sales.Owed.{IsSound, IsCovered, IsSynced}
use karibu.Db.{Db, is_order}

-- The loop of `_move` touches neither orders nor debts.
pub books-move_item :
    (sign : ℤ) (note : String) (user_id : Option ℕ) (now new_id : ℕ) (e : ℕ × ℕ) (db : Db)
    → ((move_item sign note user_id now new_id e db).orders ≡ db.orders)
      × ((move_item sign note user_id now new_id e db).debts ≡ db.debts)
unfolding move_item
books-move_item sign note user_id now new_id e db = ground arith

move_item-IsSound :
    (sign : ℤ) (note : String) (user_id : Option ℕ) (now new_id : ℕ) (e : ℕ × ℕ) (db : Db)
    → IsSound db
    → IsSound (move_item sign note user_id now new_id e db)
move_item-IsSound sign note user_id now new_id e db h =
    let (same_orders, same_debts) = books-move_item sign note user_id now new_id e db in
    record {
      covered = rw (same_orders, same_debts) h.covered;
      synced = rw same_orders h.synced;
      repaid = rw same_debts h.repaid;
      keys = rw same_debts h.keys;
    }

pub move_all-IsSound :
    (sign : ℤ) (note : String) (user_id : Option ℕ) (now new_id : ℕ) (es : Totals) (db : Db)
    → IsSound db
    → IsSound (move_all sign note user_id now new_id es db)
unfolding move_all
move_all-IsSound sign note user_id now new_id [] db h = h
move_all-IsSound sign note user_id now new_id (e ∷ es) db h =
    move_all-IsSound sign note user_id now (new_id + 1) es
      (move_item sign note user_id now new_id e db)
      (move_item-IsSound sign note user_id now new_id e db h)

-- Writing back an order with another status keeps the books sound.
restatus-IsSound :
    (db : Db) (key rid : ℕ) (o : Order) (s : OrderStatus)
    → IsSound db
    → select (in_tenant key rid) db.orders ≡ some o
    → IsSound (record db { orders = save_order (record o { status = s }) db.orders })
unfolding amount_paid_cents
restatus-IsSound db key rid o s h found = record {
  covered =
      All-update (IsCovered db.debts) (IsCovered db.debts) (is_order o.id)
        (λ _. record o { status = s }) db.orders
        (λ x px t. All-select (IsCovered db.debts) (in_tenant key rid) db.orders o h.covered found)
        (λ x px t. px) h.covered;
  synced =
      All-update IsSynced IsSynced (is_order o.id) (λ _. record o { status = s }) db.orders
        (λ x px t. All-select IsSynced (in_tenant key rid) db.orders o h.synced found)
        (λ x px t. px) h.synced;
  repaid = h.repaid;
  keys = h.keys;
}

-- A change of status keeps the books sound.
pub update_status-IsSound :
    (key : ℕ) (text : String) (user : User) (db db' : Db)
    → IsSound db
    → update_status key text user db ≡ ok db'
    → IsSound db'
unfolding update_status get_scoped_order
update_status-IsSound key text user db db' h done =
    let (o, found, rest) =
      or_raise-eq-ok (select (in_tenant key user.restaurant_id) db.orders) _ _ done in
    let (s, _, same) = or_raise-eq-ok (parse_status text) _ _ rest in
    subst IsSound (ok-injective same) (restatus-IsSound db key user.restaurant_id o s h found)

-- A cancellation keeps the books sound.
pub cancel_order-IsSound :
    (key : ℕ) (user : User) (now mid : ℕ) (db db' : Db)
    → IsSound db
    → cancel_order key user now mid db ≡ ok db'
    → IsSound db'
unfolding cancel_order get_scoped_order reverse_sale
cancel_order-IsSound key user now mid db db' h done =
    let (inner, _, _) = behind_guard user _ done in
    let (o, found, rest) =
      or_raise-eq-ok (select (in_tenant key user.restaurant_id) db.orders) _ _ inner in
    let (_, rest1) = raise_if-eq-ok (is_paid o.payment_status) _ _ rest in
    let (_, same) = raise_if-eq-ok (is_cancelled o.status) _ _ rest1 in
    subst IsSound (ok-injective same) (
      move_all-IsSound _ _ _ now mid _ _
        (restatus-IsSound db key user.restaurant_id o OrderStatus.cancelled h found))
