-- ===== src/Stock/Effects.antt =====
-- What `record_movement` (routers/stock.py) changes, when it refuses, and the expense it writes.
use mathlib.Core.Path.{subst}
use karibu.Prelude.{
  ℕ, String, ◌≡◌, ◌≢◌, ◌↔◌, refl, List, [], ◌∷◌, none, some, arith, ◌==◌, if◌then◌else◌, select,
  update, Decimal, to_cents, to_milli, round_half_even,
}
use karibu.Prelude.Int.{ℤ, pos, ◌+ℤ◌, ◌≤ℤ◌, ltb_ℤ}
use karibu.Api.{ok, err, raise_if-eq-ok, ok-injective, more_than_recorded_stock}
use karibu.Access.{User, UserRole, require_roles, managers}
use karibu.Access.Laws.{behind_guard}
use karibu.Stock.{StockItem, MovementReason}
use karibu.Expense.{Expense}
use karibu.Stock.Routes.{MovementCreate, get_item, in_restaurant}
use karibu.Stock.Movements.{
  record_movement, commit_movement, new_movement, delivery_expense, cost_cents, expense_of,
}
use karibu.Stock.Keeps.{get_item-row}
use karibu.Stock.OnHand.{on_hand, on_hand-update}
use karibu.Db.{Db, is_item}

on_hand-found :
    (key rid : ℕ) (is : List StockItem) (item : StockItem)
    → select (in_restaurant key rid) is ≡ some item
    → on_hand key is ≢ none
on_hand-found key rid [] item h e = cc
on_hand-found key rid (i ∷ is) item h e = ground (arith, on_hand-found key rid is item)

shelf_after :
    (key : ℕ) (q : ℤ) (j : ℕ) (is : List StockItem)
    → on_hand key is ≢ none
    → on_hand j (update (is_item key) (λ (i : StockItem). record i { quantity_milli = q }) is)
      ≡ (if j == key then some q else on_hand j is)
shelf_after key q j is present = ground (arith, on_hand-update j key q is)

-- A movement that is accepted was of a manager; it sets its item to the old quantity plus the
-- movement, which is not negative, and leaves the quantity of every other item as it was.
pub record_movement_effect :
    (key : ℕ) (body : MovementCreate) (user : User) (what : String) (now mid eid : ℕ) (db db' : Db)
    (item : StockItem) (j : ℕ)
    → get_item db user key ≡ ok item
    → record_movement key body user what now mid eid db ≡ ok db'
    → (user.role ≡ UserRole.manager)
      × (pos 0 ≤ℤ item.quantity_milli +ℤ to_milli body.quantity)
      × (on_hand j db'.stock_items ≡ (
          if j == key
          then some (item.quantity_milli +ℤ to_milli body.quantity)
          else on_hand j db.stock_items))
unfolding record_movement commit_movement new_movement
record_movement_effect key body user what now mid eid db db' item j found done =
    let (inner, role, _) = behind_guard user _ done in
    let saved =
      commit_movement (new_movement body item user now mid)
        (delivery_expense body item user what now mid eid) db in
    let (enough, same) =
      raise_if-eq-ok (ltb_ℤ (item.quantity_milli +ℤ to_milli body.quantity) (pos 0))
        more_than_recorded_stock (ok saved) (rw found at inner) in
    let row = get_item-row db user key item found in
    let q = item.quantity_milli +ℤ to_milli body.quantity in
    (
      role,
      ground (arith, enough),
      subst
          (λ (d : Db).
            on_hand j d.stock_items ≡ (if j == key then some q else on_hand j db.stock_items))
          (ok-injective {a = saved} same)
          (rw row.1 (
            shelf_after key q j db.stock_items
              (on_hand-found key user.restaurant_id db.stock_items item row.0))),
    )

-- The movement of an item that is found, by a manager whose password is set, is refused for lack
-- of stock exactly when it would leave the item below zero.
pub record_movement-refused_iff :
    (key : ℕ) (body : MovementCreate) (user : User) (what : String) (now mid eid : ℕ) (db : Db)
    (item : StockItem)
    → require_roles managers user ≡ ok user
    → get_item db user key ≡ ok item
    → (record_movement key body user what now mid eid db ≡ err more_than_recorded_stock)
      ↔ (¬ (pos 0 ≤ℤ item.quantity_milli +ℤ to_milli body.quantity))
unfolding record_movement
record_movement-refused_iff key body user what now mid eid db item allowed found =
    rw (allowed, found) (ground arith)

cost_cents_lem : (c : Decimal) → to_cents c ≢ 0 → cost_cents (some c) ≡ some (to_cents c)
unfolding cost_cents round_half_even
cost_cents_lem c n = ground arith

-- A delivery whose cost rounds to a cent or more writes one expense of that cost, joined to the
-- movement, paid or owed as the request says, and the movement records the same cost.
pub delivery_expense_exact :
    (body : MovementCreate) (item : StockItem) (user : User) (what : String) (now mid eid : ℕ)
    (c : Decimal)
    → body.reason ≡ MovementReason.received
    → body.cost ≡ some c
    → to_cents c ≢ 0
    → (e : Expense) × (delivery_expense body item user what now mid eid ≡ e ∷ [])
      × (e.amount_cents ≡ to_cents c)
      × (e.stock_movement_id ≡ some mid)
      × (e.is_paid ≡ body.paid)
      × ((new_movement body item user now mid).total_cost_cents ≡ some e.amount_cents)
unfolding delivery_expense new_movement
delivery_expense_exact body item user what now mid eid c r p n = (
  expense_of body item user what now mid eid (to_cents c),
  ground (arith, cost_cents_lem c n),
  refl,
  refl,
  refl,
  rw p (cost_cents_lem c n),
)
