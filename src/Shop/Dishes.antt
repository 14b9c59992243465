-- ===== src/Shop/Dishes.antt =====
-- The requests on orders and debts (routers/orders.py, routers/debts.py) leave the foreign keys into
-- the menu valid: an order has its dishes from a live menu, and keeps them.
use karibu.Prelude.{
  ℕ, ◌+◌, ◌≡◌, Bool, true, String, Option, some, List, [], ◌∷◌, arith, select, All, All-append,
  All-update, All-select, Found-cons, Bool-cases, inl, inr, strip_or_none, ltb, not, ◌&&◌, none,
}
use mathlib.Core.Path.{subst}
use karibu.Prelude.Int.{ℤ}
use karibu.Api.{ok, bind-eq-ok, or_raise-eq-ok, raise_if-eq-ok, ok-injective, menu_item_gone}
use karibu.Access.{User, is_manager}
use karibu.Access.Laws.{behind_guard}
use karibu.Order.{
  Order, OrderItem, OrderStatus, PaymentMethod, parse_status, parse_method, recalculate, is_paid,
  is_cancelled, sync_payment_status,
}
use karibu.Debt.{Debt}
use karibu.Stock.{MenuItem}
use karibu.Stock.Deduction.{Totals, move_item, move_all, apply_sale, reverse_sale}
use karibu.Db.{Db, is_order}
use karibu.Sales.{
  OrderLineIn, OrderCreate, OrderPaymentIn, on_menu as is_on_menu, snapshot, new_order,
  create_order, update_status, record_payment, cancel_order, in_tenant, get_scoped_order,
  take_payment, settle, complete_if, with_payment, save_order,
}
use karibu.Sales.Debts.{DebtPaymentIn, pay_debt, with_repayment}
use karibu.Sales.Repayments.{pay_debt-eq-ok}
use karibu.Menu.{is_menu_item}
use karibu.Menu.Links.{IsLinked, HasDishes, OnMenu}

-- A dish that a query with its id finds.
pub dish_found :
    (test : MenuItem → Bool) (key : ℕ) (ms : List MenuItem) (m : MenuItem)
    → ((x : MenuItem) → test x ≡ true → x.id ≡ key)
    → select test ms ≡ some m
    → OnMenu ms m.id
dish_found test key [] m named h = absurd (cc)
dish_found test key (x ∷ xs) m named h = elim (Bool-cases (test x)) [
  | inl e ↦ let same : x ≡ m = ground arith in rw same (ground arith)
  | inr e ↦ Found-cons (is_menu_item m.id) x xs (dish_found test key xs m named (rw e at h))
]

snapshot-HasDishes :
    (menu : List MenuItem) (rid : ℕ) (lines : List OrderLineIn) (items : List OrderItem)
    → snapshot menu rid lines ≡ ok items
    → All (λ (li : OrderItem). OnMenu menu li.menu_item_id) items
unfolding snapshot
snapshot-HasDishes menu rid [] items h = subst (All _) (ok-injective h) tt
snapshot-HasDishes menu rid (l ∷ ls) items h =
    let (m, found, rest) =
      or_raise-eq-ok (select (is_on_menu l.menu_item_id rid) menu) menu_item_gone _ h in
    let (others, copied, same) = bind-eq-ok (snapshot menu rid ls) _ rest in
    subst (All _) (ok-injective same) (
      dish_found (is_on_menu l.menu_item_id rid) l.menu_item_id menu m (λ x t. ground arith) found,
      snapshot-HasDishes menu rid ls others copied,
    )

-- The tables that the foreign keys are between are those of `db`.
record SameLinks (db db' : Db) : Type 0 where
  orders : db'.orders ≡ db.orders
  categories : db'.categories ≡ db.categories
  menu_items : db'.menu_items ≡ db.menu_items
  recipes : db'.recipes ≡ db.recipes

SameLinks-IsLinked : {db db' : Db} → SameLinks db db' → IsLinked db → IsLinked db'
SameLinks-IsLinked s h = record {
  dishes = rw (s.orders, s.menu_items) h.dishes;
  categories = rw (s.categories, s.menu_items) h.categories;
  recipes = rw (s.recipes, s.menu_items) h.recipes;
}

-- A sale moves the shelf alone.
move_item-SameLinks :
    (sign : ℤ) (note : String) (uid : Option ℕ) (now mid : ℕ) (t : ℕ × ℕ) (db : Db)
    → SameLinks db (move_item sign note uid now mid t db)
unfolding move_item
move_item-SameLinks sign note uid now mid t db = record {
  orders = ground arith;
  categories = ground arith;
  menu_items = ground arith;
  recipes = ground arith;
}

move_all-IsLinked :
    (sign : ℤ) (note : String) (uid : Option ℕ) (now mid : ℕ) (ts : Totals) (db : Db)
    → IsLinked db
    → IsLinked (move_all sign note uid now mid ts db)
unfolding move_all
move_all-IsLinked sign note uid now mid [] db h = h
move_all-IsLinked sign note uid now mid (t ∷ ts) db h =
    move_all-IsLinked sign note uid now (mid + 1) ts (move_item sign note uid now mid t db)
      (SameLinks-IsLinked (move_item-SameLinks sign note uid now mid t db) h)

-- An order rewritten with its lines as they were.
save_order-IsLinked :
    (o : Order) (debts : List Debt) (db : Db)
    → HasDishes db.menu_items o
    → IsLinked db
    → IsLinked (record db { orders = save_order o db.orders; debts = debts })
save_order-IsLinked o debts db has h = record {
  dishes =
      All-update (HasDishes db.menu_items) (HasDishes db.menu_items) (is_order o.id) (λ _. o)
        db.orders (λ x k t. has) (λ x k t. k) h.dishes;
  categories = h.categories;
  recipes = h.recipes;
}

found-HasDishes :
    (test : Order → Bool) (o : Order) (db : Db)
    → IsLinked db
    → select test db.orders ≡ some o
    → HasDishes db.menu_items o
found-HasDishes test o db h found =
    All-select (HasDishes db.menu_items) test db.orders o h.dishes found

pub create_order-IsLinked :
    (body : OrderCreate) (user : User) (reference : String) (key mid now : ℕ) (db db' : Db)
    → IsLinked db
    → create_order body user reference key mid now db ≡ ok db'
    → IsLinked db'
unfolding create_order apply_sale new_order recalculate
create_order-IsLinked body user reference key mid now db db' h done =
    let (_, rest) = raise_if-eq-ok (ltb 0 body.discount && not (is_manager user.role)) _ _ done in
    let (items, copied, same) =
      bind-eq-ok (snapshot db.menu_items user.restaurant_id body.items) _ rest in
    let has = snapshot-HasDishes db.menu_items user.restaurant_id body.items items copied in
    subst IsLinked (ok-injective same) (
      move_all-IsLinked _ _ _ _ _ _ _ (record {
        dishes = All-append (HasDishes db.menu_items) db.orders _ h.dishes (has, tt);
        categories = h.categories;
        recipes = h.recipes;
      }))

pub cancel_order-IsLinked :
    (key : ℕ) (user : User) (now mid : ℕ) (db db' : Db)
    → IsLinked db
    → cancel_order key user now mid db ≡ ok db'
    → IsLinked db'
unfolding cancel_order get_scoped_order reverse_sale
cancel_order-IsLinked key user now mid db db' h done =
    let (inner, _, _) = behind_guard user _ done in
    let (o, found, rest) =
      or_raise-eq-ok (select (in_tenant key user.restaurant_id) db.orders) _ _ inner in
    let (_, rest1) = raise_if-eq-ok (is_paid o.payment_status) _ _ rest in
    let (_, same) = raise_if-eq-ok (is_cancelled o.status) _ _ rest1 in
    let has = found-HasDishes (in_tenant key user.restaurant_id) o db h found in
    subst IsLinked (ok-injective same) (
      move_all-IsLinked _ _ _ _ _ _ _
        (save_order-IsLinked (record o { status = OrderStatus.cancelled }) db.debts db has h))

pub update_status-IsLinked :
    (key : ℕ) (text : String) (user : User) (db db' : Db)
    → IsLinked db
    → update_status key text user db ≡ ok db'
    → IsLinked db'
unfolding update_status get_scoped_order
update_status-IsLinked key text user db db' h done =
    let (o, found, rest) =
      or_raise-eq-ok (select (in_tenant key user.restaurant_id) db.orders) _ _ done in
    let (s, _, same) = or_raise-eq-ok (parse_status text) _ _ rest in
    let has = found-HasDishes (in_tenant key user.restaurant_id) o db h found in
    subst IsLinked (ok-injective same)
      (save_order-IsLinked (record o { status = s }) db.debts db has h)

settle-IsLinked :
    (o : Order) (debts : List Debt) (db : Db)
    → HasDishes db.menu_items o
    → IsLinked db
    → IsLinked (settle o debts db)
unfolding settle complete_if sync_payment_status
settle-IsLinked o debts db has h = save_order-IsLinked _ debts db has h

take_payment-IsLinked :
    (m : Option PaymentMethod) (body : OrderPaymentIn) (o : Order) (user : User) (now new_id : ℕ)
    (db db' : Db)
    → HasDishes db.menu_items o
    → IsLinked db
    → take_payment m body o user now new_id db ≡ ok db'
    → IsLinked db'
unfolding take_payment with_payment
take_payment-IsLinked none body o user now new_id db db' has h done = absurd (cc)
take_payment-IsLinked (some PaymentMethod.debt) body o user now new_id db db' has h done =
    let (name, _, same) = or_raise-eq-ok (strip_or_none body.customer_name) _ _ done in
    subst IsLinked (ok-injective same) (settle-IsLinked o _ db has h)
take_payment-IsLinked (some PaymentMethod.mpesa) body o user now new_id db db' has h done =
    subst IsLinked (ok-injective done) (settle-IsLinked _ db.debts db has h)
take_payment-IsLinked (some PaymentMethod.cash) body o user now new_id db db' has h done =
    subst IsLinked (ok-injective done) (settle-IsLinked _ db.debts db has h)
take_payment-IsLinked (some PaymentMethod.card) body o user now new_id db db' has h done =
    subst IsLinked (ok-injective done) (settle-IsLinked _ db.debts db has h)

pub record_payment-IsLinked :
    (key : ℕ) (body : OrderPaymentIn) (user : User) (now new_id : ℕ) (db db' : Db)
    → IsLinked db
    → record_payment key body user now new_id db ≡ ok db'
    → IsLinked db'
unfolding record_payment get_scoped_order
record_payment-IsLinked key body user now new_id db db' h done =
    let (o, found, rest) =
      or_raise-eq-ok (select (in_tenant key user.restaurant_id) db.orders) _ _ done in
    let (_, taken) = raise_if-eq-ok _ _ _ rest in
    take_payment-IsLinked (parse_method body.method) body o user now new_id db db'
      (found-HasDishes (in_tenant key user.restaurant_id) o db h found) h taken

pub pay_debt-IsLinked :
    (key : ℕ) (body : DebtPaymentIn) (user : User) (now : ℕ) (db db' : Db)
    → IsLinked db
    → pay_debt key body user now db ≡ ok db'
    → IsLinked db'
unfolding complete_if sync_payment_status with_repayment
pay_debt-IsLinked key body user now db db' h done =
    let r = pay_debt-eq-ok key body user now db db' done in
    subst IsLinked r.written (
      save_order-IsLinked _ _ db
        (found-HasDishes (is_order r.debt.order_id) r.order db h r.order_found) h)
