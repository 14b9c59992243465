-- ===== src/Sales/Placing.antt =====
-- Placing an order, and an order cancelled by its status alone (routers/orders.py).
use karibu.Prelude.{
  ℕ, ◌+◌, ◌-◌, ◌*◌, ◌≡◌, refl, sym, ap, ◌∙◌, String, Bool, true, false, Option, none, some, List,
  [], ◌∷◌, ◌++◌, arith, ltb, leb, not, ◌&&◌, ◌||◌, to_cents, select, select-test, update,
  All-append, sum_of, ==_iff, Bool-cases, inl, inr,
}
use mathlib.Core.Path.{subst}
use karibu.Prelude.Int.{ℤ, pos, int_laws}
use karibu.Api.{
  ok, err, or_raise-eq-ok, raise_if-eq-ok, bind-eq-ok, ok-injective, already_cancelled,
}
use karibu.Access.{User, is_manager, require_roles, managers}
use karibu.Order.{
  Order, OrderItem, OrderStatus, amount_paid_cents, recalculate, line_total_cents, parse_status,
  is_paid, payment_status_of,
}
use karibu.Stock.{MenuItem}
use karibu.Stock.Deduction.{Totals, move_item, move_all, apply_sale}
use karibu.Sales.{
  OrderCreate, OrderLineIn, owed, snapshot, on_menu, new_order, create_order, update_status,
  cancel_order, get_scoped_order, in_tenant,
}
use karibu.Sales.Owed.{IsSound, IsCovered, IsSynced}
use karibu.Sales.Orders.{books-move_item, move_all-IsSound}
use karibu.Db.{Db, is_order}

-- The price of a dish on the live menu.
abbrev price_of : Option MenuItem → ℕ
price_of none = 0
price_of (some m) = m.price_cents

abbrev price_on : List MenuItem → ℕ → ℕ → ℕ
price_on menu rid key = price_of (select (on_menu key rid) menu)

-- What the lines of a request cost at the live menu's prices.
unfoldable pub bill : List MenuItem → ℕ → List OrderLineIn → ℕ
bill menu rid = sum_of (λ (line : OrderLineIn). price_on menu rid line.menu_item_id * line.quantity)

snapshot-total :
    (menu : List MenuItem) (rid : ℕ) (lines : List OrderLineIn) (items : List OrderItem)
    → snapshot menu rid lines ≡ ok items
    → sum_of line_total_cents items ≡ bill menu rid lines
unfolding snapshot bill line_total_cents
snapshot-total menu rid [] items h =
    subst (λ is. sum_of line_total_cents is ≡ 0) (ok-injective h) refl
snapshot-total menu rid (line ∷ lines) items h =
    let (m, found, rest) = or_raise-eq-ok (select (on_menu line.menu_item_id rid) menu) _ _ h in
    let (is, tail, same) = bind-eq-ok (snapshot menu rid lines) _ rest in
    subst (λ is'. sum_of line_total_cents is' ≡ bill menu rid (line ∷ lines)) (ok-injective same)
      (ap (λ n. m.price_cents * line.quantity + n) (snapshot-total menu rid lines is tail)
        ∙ ap (λ o. price_of o * line.quantity + bill menu rid lines) (sym found))

orders-move_all :
    (sign : ℤ) (note : String) (user_id : Option ℕ) (now new_id : ℕ) (es : Totals) (db : Db)
    → (move_all sign note user_id now new_id es db).orders ≡ db.orders
unfolding move_all
orders-move_all sign note user_id now new_id [] db = refl
orders-move_all sign note user_id now new_id (e ∷ es) db =
    orders-move_all sign note user_id now (new_id + 1) es
      (move_item sign note user_id now new_id e db)
    ∙ (books-move_item sign note user_id now new_id e db).0

-- An order that is placed costs what its lines cost on the live menu, less the discount and at
-- least nothing, and only a manager gives a discount; the order is the one new row.
pub create_order-total :
    (body : OrderCreate) (user : User) (reference : String) (key mid now : ℕ) (db db' : Db)
    → create_order body user reference key mid now db ≡ ok db'
    → (o : Order) × (db'.orders ≡ db.orders ++ o ∷ [])
      × (o.total_cents ≡ bill db.menu_items user.restaurant_id body.items - to_cents body.discount)
      × ((leb body.discount 0 || is_manager user.role) ≡ true)
unfolding create_order new_order recalculate apply_sale
create_order-total body user reference key mid now db db' h =
    let (allowed, rest) =
      raise_if-eq-ok (ltb 0 body.discount && not (is_manager user.role)) _ _ h in
    let (items, priced, same) =
      bind-eq-ok (snapshot db.menu_items user.restaurant_id body.items) _ rest in
    let order = recalculate (new_order body user reference key now items) in
    (
      order,
      sym (ap (λ (d : Db). d.orders) (ok-injective same)) ∙ orders-move_all _ _ _ _ _ _ _,
      ap (λ n. n - to_cents body.discount)
          (snapshot-total db.menu_items user.restaurant_id body.items items priced),
      ground arith,
    )

-- Placing an order under an id on which nothing is owed keeps the books sound.
pub create_order-IsSound :
    (body : OrderCreate) (user : User) (reference : String) (key mid now : ℕ) (db db' : Db)
    → IsSound db
    → owed key db.debts ≡ pos 0
    → create_order body user reference key mid now db ≡ ok db'
    → IsSound db'
unfolding create_order new_order recalculate apply_sale amount_paid_cents payment_status_of
create_order-IsSound body user reference key mid now db db' h fresh done =
    let (allowed, rest) =
      raise_if-eq-ok (ltb 0 body.discount && not (is_manager user.role)) _ _ done in
    let (items, priced, same) =
      bind-eq-ok (snapshot db.menu_items user.restaurant_id body.items) _ rest in
    let order = recalculate (new_order body user reference key now items) in
    subst IsSound (ok-injective same) (
      move_all-IsSound _ _ _ now mid _ _ (record {
        covered =
            All-append (IsCovered db.debts) db.orders (order ∷ []) h.covered
              (rw fresh (omega int_laws), tt);
        synced = All-append IsSynced db.orders (order ∷ []) h.synced (refl, tt);
        repaid = h.repaid;
        keys = h.keys;
      }))

-- A row that is written back is found where the old one was.
select-save {ℓ} :
    {A : Type ℓ} (test by : A → Bool) (xs : List A) (x z : A)
    → select test xs ≡ some x
    → by x ≡ true
    → test z ≡ true
    → select test (update by (λ _. z) xs) ≡ some z
select-save test by [] x z found b t = absurd (cc)
select-save test by (y ∷ ys) x z found b t = elim (Bool-cases (by y)) [
  | inl e ↦ rw (e, t) refl
  | inr e ↦ rw e (elim (Bool-cases (test y)) [
    | inl e' ↦ let same : y ≡ x = ground arith in absurd (cc)
    | inr e' ↦ rw e' (select-save test by ys x z (rw e' at found) b t)
  ])
]

-- A caller of any role who marks an unpaid order cancelled leaves the stock as the sale left it,
-- and the cancellation by a manager of the restaurant, which returns the ingredients, is then
-- refused.
pub update_status_cancels :
    (key now mid : ℕ) (user boss : User) (o : Order) (db db' : Db)
    → select (in_tenant key user.restaurant_id) db.orders ≡ some o
    → is_paid o.payment_status ≡ false
    → boss.restaurant_id ≡ user.restaurant_id
    → require_roles managers boss ≡ ok boss
    → update_status key "cancelled" user db ≡ ok db'
    → (db'.stock_items ≡ db.stock_items)
      × (cancel_order key boss now mid db' ≡ err already_cancelled)
unfolding update_status cancel_order get_scoped_order parse_status
update_status_cancels key now mid user boss o db db' found unpaid same_place is_boss done =
    let cancelled = record o { status = OrderStatus.cancelled } in
    let stored =
      select-save (in_tenant key user.restaurant_id) (is_order o.id) db.orders o cancelled found
        ((==_iff o.id o.id).1 refl)
        (select-test (in_tenant key user.restaurant_id) db.orders o found) in
    subst
      (λ (d : Db).
        (d.stock_items ≡ db.stock_items)
        × (cancel_order key boss now mid d ≡ err already_cancelled))
      (ok-injective (rw found at done)) (refl, rw (is_boss, same_place, stored, unpaid) refl)
