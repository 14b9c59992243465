-- ===== src/Stock/Keeps.antt =====
-- Every operation that changes the shelf keeps the ledger reconciled (routers/stock.py,
-- services/stock_deduction.py).
use mathlib.Core.Path.{subst}
use karibu.Prelude.{
  refl, sym, ◌∙◌, inl, inr, update, All-update, List, ◌⊎◌, ℕ, ◌+◌, String, ◌≡◌, ap, false, Option,
  some, [], ◌∷◌, arith, All-select, select, select-test, to_milli, Option-cases,
}
use karibu.Prelude.Int.{ℤ, pos, ◌+ℤ◌, ltb_ℤ}
use karibu.Api.{ok, raise_if-eq-ok, bind-eq-ok, ok-injective}
use karibu.Access.{User}
use karibu.Access.Laws.{behind_guard}
use karibu.Order.{Order}
use karibu.Stock.{StockItem}
use karibu.Stock.Deduction.{move_item, move_all, apply_sale, reverse_sale, lines_for, times, Totals}
use karibu.Stock.Ledger.{IsReconciled, Tallies, replayed, quantity_replayed, record_keeps}
use karibu.Stock.Routes.{
  update_stock_item, archive_stock_item, edit_item, StockItemUpdate, MovementCreate, in_restaurant,
  get_item,
}
use karibu.Stock.Movements.{record_movement, commit_movement, new_movement, delivery_expense}
use karibu.Stock.OnHand.{on_hand}
use karibu.Db.{Db, is_item}

-- One round of the loop of `_move` keeps the shelf reconciled.
move_item-IsReconciled :
    (sign : ℤ) (note : String) (user_id : Option ℕ) (now new_id : ℕ) (e : ℕ × ℕ) (db : Db)
    → IsReconciled db
    → IsReconciled (move_item sign note user_id now new_id e db)
unfolding move_item
move_item-IsReconciled sign note user_id now new_id e db h =
    elim (Option-cases (select (is_item e.0) db.stock_items)) [
      | inl missing ↦ rw (missing, move_item) h
      | inr (item, found) ↦
          rw (found, move_item)
            (record_keeps db _ h
              (ap (λ q. q +ℤ times sign e.1) (quantity_replayed db e.0 item h found)))
    ]

move_all-IsReconciled :
    (sign : ℤ) (note : String) (user_id : Option ℕ) (now new_id : ℕ) (es : Totals) (db : Db)
    → IsReconciled db
    → IsReconciled (move_all sign note user_id now new_id es db)
unfolding move_all
move_all-IsReconciled sign note user_id now new_id [] db h = h
move_all-IsReconciled sign note user_id now new_id (e ∷ es) db h =
    move_all-IsReconciled sign note user_id now (new_id + 1) es
      (move_item sign note user_id now new_id e db)
      (move_item-IsReconciled sign note user_id now new_id e db h)

-- Selling an order, and giving its ingredients back, keep the ledger reconciled.
pub sale-IsReconciled :
    (order : Order) (user_id : Option ℕ) (now new_id : ℕ) (db : Db)
    → IsReconciled db
    → IsReconciled (apply_sale order user_id now new_id db)
      × IsReconciled (reverse_sale order user_id now new_id db)
unfolding apply_sale reverse_sale
sale-IsReconciled order user_id now new_id db h = (
  move_all-IsReconciled _ _ user_id now new_id (lines_for db order) db h,
  move_all-IsReconciled _ _ user_id now new_id (lines_for db order) db h,
)

-- `_get_item` returns a row of the table, with the id and the restaurant asked for, not archived.
pub get_item-row :
    (db : Db) (user : User) (key : ℕ) (item : StockItem)
    → get_item db user key ≡ ok item
    → (select (in_restaurant key user.restaurant_id) db.stock_items ≡ some item)
      × (item.id ≡ key)
      × (item.restaurant_id ≡ user.restaurant_id)
      × (item.is_archived ≡ false)
unfolding get_item
get_item-row db user key item h =
    ground (arith, select-test (in_restaurant key user.restaurant_id) db.stock_items item)

-- The quantity of an item that `_get_item` returned is the replay of its movements.
pub get_item-replayed :
    (db : Db) (user : User) (key : ℕ) (item : StockItem)
    → IsReconciled db
    → get_item db user key ≡ ok item
    → item.quantity_milli ≡ replayed item.id db.movements
get_item-replayed db user key item h e =
    All-select (Tallies db.movements) (in_restaurant key user.restaurant_id) db.stock_items item
      h.tallies (get_item-row db user key item e).0

-- What a movement that was accepted has done.
pub record_movement-eq-ok :
    (key : ℕ) (body : MovementCreate) (user : User) (what : String) (now mid eid : ℕ) (db db' : Db)
    → record_movement key body user what now mid eid db ≡ ok db'
    → (item : StockItem) × (get_item db user key ≡ ok item)
      × (ltb_ℤ (item.quantity_milli +ℤ to_milli body.quantity) (pos 0) ≡ false)
      × (db'
          ≡ commit_movement
              (new_movement body item user now mid)
              (delivery_expense body item user what now mid eid)
              db)
unfolding record_movement
record_movement-eq-ok key body user what now mid eid db db' h =
    let (inner, _, _) = behind_guard user _ h in
    let (item, found, rest) = bind-eq-ok (get_item db user key) _ inner in
    let (in_stock, done) = raise_if-eq-ok _ _ _ rest in (item, found, in_stock, cc done)

-- A movement that is accepted keeps the ledger reconciled: replaying the movements gives every
-- quantity on the shelf and every balance that was recorded.
pub record_movement-IsReconciled :
    (key : ℕ) (body : MovementCreate) (user : User) (what : String) (now mid eid : ℕ) (db db' : Db)
    → IsReconciled db
    → record_movement key body user what now mid eid db ≡ ok db'
    → IsReconciled db'
unfolding commit_movement new_movement
record_movement-IsReconciled key body user what now mid eid db db' h done =
    let (item, found, _, same) = record_movement-eq-ok key body user what now mid eid db db' done in
    let kept =
      record_keeps db (new_movement body item user now mid) h
        (ap (λ q. q +ℤ to_milli body.quantity) (get_item-replayed db user key item h found)) in
    rw same (record { tallies = kept.tallies; balances = kept.balances })

-- An edit of one row that leaves its id and its quantity alone.
module _ (k : ℕ) (f : StockItem → StockItem)
    (leaves : (i : StockItem) → ((f i).id ≡ i.id) × ((f i).quantity_milli ≡ i.quantity_milli)) where
  on_hand-edit : (j : ℕ) (is : List StockItem) → on_hand j (update (is_item k) f is) ≡ on_hand j is
  on_hand-edit j [] = refl
  on_hand-edit j (i ∷ is) = ground (arith, on_hand-edit j is, leaves i)

  edit_keeps :
      (db : Db)
      → IsReconciled db
      → IsReconciled (record db { stock_items = update (is_item k) f db.stock_items })
  edit_keeps db h = record {
    tallies =
        All-update (Tallies db.movements) (Tallies db.movements) (is_item k) f db.stock_items
          (λ x t _. (leaves x).1 ∙ t ∙ ap (λ n. replayed n db.movements) (sym (leaves x).0))
          (λ x t _. t) h.tallies;
    balances = h.balances;
  }

  edited :
      (db db' : Db)
      → IsReconciled db
      → record db { stock_items = update (is_item k) f db.stock_items } ≡ db'
      → IsReconciled db' × ((j : ℕ) → on_hand j db'.stock_items ≡ on_hand j db.stock_items)
  edited db db' h same =
      subst
        (λ (d : Db).
          IsReconciled d × ((j : ℕ) → on_hand j d.stock_items ≡ on_hand j db.stock_items))
        same (edit_keeps db h, λ j. on_hand-edit j db.stock_items)

-- Editing a stock item and archiving it change no quantity, and keep the ledger reconciled.
pub edit-IsReconciled :
    (key : ℕ) (body : StockItemUpdate) (user : User) (db db' : Db)
    → IsReconciled db
    → (update_stock_item key body user db ≡ ok db') ⊎ (archive_stock_item key user db ≡ ok db')
    → IsReconciled db' × ((j : ℕ) → on_hand j db'.stock_items ≡ on_hand j db.stock_items)
unfolding update_stock_item archive_stock_item edit_item
edit-IsReconciled key body user db db' h (inl done) =
    let (inner, _, _) = behind_guard user _ done in
    let (item, _, rest) = bind-eq-ok (get_item db user key) _ inner in
    edited item.id (edit_item body) (λ i. (refl, refl)) db db' h (ok-injective rest)
edit-IsReconciled key body user db db' h (inr done) =
    let (inner, _, _) = behind_guard user _ done in
    let (item, _, rest) = bind-eq-ok (get_item db user key) _ inner in
    edited item.id _ (λ i. (refl, refl)) db db' h (ok-injective rest)
