-- ===== src/Menu/History.antt =====
-- routers/menu.py: what becomes of a dish that `delete_item` takes off the menu.
use karibu.Prelude.{
  ℕ, ◌≡◌, ◌≢◌, refl, String, Bool, true, false, none, some, List, [], ◌∷◌, arith, ltb, ◌==◌,
  if◌then◌else◌, select, select-test, select-update_const, select-delete-none, All, All-always,
  All-select, All-update, All-delete, Found, Found-some, Bool-cases, inl, inr, not, ◌&&◌,
}
use mathlib.Core.Path.{subst, sym, ap, ◌∙◌}
use karibu.Api.{
  ok, err, bind-eq-ok, or_raise-eq-ok, raise_if-eq-ok, ok-injective, already_removed,
  menu_item_not_found,
}
use karibu.Access.{User, is_manager, require_roles, managers}
use karibu.Access.Laws.{behind_guard, require_roles-same}
use karibu.Order.{OrderItem}
use karibu.Stock.{MenuItem}
use karibu.Db.{Db}
use karibu.Sales.{OrderLineIn, OrderCreate, on_menu, snapshot, create_order}
use karibu.Shop.Retiring.{IsOff, IsGone, Later, Later-IsGone}
use karibu.Menu.{
  is_menu_item, of_tenant, get_any_item, times_ordered, archived, remove_item, delete_item,
}

-- a line of a request that asks for the dish
abbrev pub asks_for : ℕ → OrderLineIn → Bool
asks_for key l = l.menu_item_id == key

removed-IsGone :
    (key : ℕ) (item : MenuItem) (db : Db) → item.id ≡ key → IsGone key (remove_item item db)
unfolding remove_item archived
removed-IsGone key item db own = elim (Bool-cases (ltb 0 (times_ordered item.id db.orders))) [
  | inl sold ↦
      rw (remove_item, sold)
        (All-update (λ _. Unit) _ (is_menu_item item.id) (λ _. archived item) db.menu_items
          (λ x k t. ground arith) (λ x k t. ground arith)
          (All-always (λ _. Unit) (λ x. tt) db.menu_items))
  | inr unsold ↦
      rw (remove_item, unsold)
        (All-delete (λ _. Unit) _ (is_menu_item item.id) db.menu_items (λ x k t. ground arith)
          (All-always (λ _. Unit) (λ x. tt) db.menu_items))
]

not_on_menu :
    (key rid : ℕ) (ms : List MenuItem) → All (IsOff key) ms → select (on_menu key rid) ms ≡ none
not_on_menu key rid [] h = refl
not_on_menu key rid (m ∷ ms) h =
    let off : on_menu key rid m ≡ false = ground (arith, h.0) in rw off (not_on_menu key rid ms h.1)

snapshot_refuses :
    (key rid : ℕ) (menu : List MenuItem) (lines : List OrderLineIn) (items : List OrderItem)
    → All (IsOff key) menu
    → Found (asks_for key) lines
    → snapshot menu rid lines ≢ ok items
unfolding snapshot
snapshot_refuses key rid menu [] items gone asked h = absurd (cc)
snapshot_refuses key rid menu (l ∷ ls) items gone asked h =
    let (m, found, rest) = or_raise-eq-ok (select (on_menu l.menu_item_id rid) menu) _ _ h in
    let (others, copied, _) = bind-eq-ok (snapshot menu rid ls) _ rest in
    elim (Bool-cases (asks_for key l)) [
      | inl e ↦
          let same : l.menu_item_id ≡ key = ground arith in
          let none_left = not_on_menu key rid menu gone in absurd (cc)
      | inr e ↦ snapshot_refuses key rid menu ls others gone (rw e at asked) copied
    ]

orders-remove_item : (item : MenuItem) (db : Db) → (remove_item item db).orders ≡ db.orders
unfolding remove_item
orders-remove_item item db = ground arith

-- Who asks to remove the dish again, after it was removed.
again :
    (key rid : ℕ) (item : MenuItem) (db : Db)
    → item.id ≡ key
    → item.restaurant_id ≡ rid
    → Found (of_tenant key rid) db.menu_items
    → select (of_tenant key rid) (remove_item item db).menu_items
      ≡ (if ltb 0 (times_ordered key db.orders) then some (archived item) else none)
unfolding remove_item archived
again key rid item db own home found = elim (Bool-cases (ltb 0 (times_ordered item.id db.orders))) [
  | inl sold ↦
      rw (remove_item, sold, rw own at sold)
        (select-update_const (of_tenant key rid) (is_menu_item item.id) (archived item)
          db.menu_items (λ x t. ground arith) (ground arith) found)
  | inr unsold ↦
      rw (remove_item, unsold, rw own at unsold)
        (select-delete-none (of_tenant key rid) (is_menu_item item.id) db.menu_items
          (λ x t. ground arith))
]

second :
    (key : ℕ) (item : MenuItem) (user : User) (db : Db)
    → require_roles managers user ≡ ok user
    → item.id ≡ key
    → item.restaurant_id ≡ user.restaurant_id
    → Found (of_tenant key user.restaurant_id) db.menu_items
    → delete_item key user (remove_item item db)
      ≡ err (if ltb 0 (times_ordered key db.orders) then already_removed else menu_item_not_found)
unfolding delete_item get_any_item archived
second key item user db allowed own home found =
    let left = again key user.restaurant_id item db own home found in
    elim (Bool-cases (ltb 0 (times_ordered key db.orders))) [
      | inl sold ↦ rw (allowed, left, sold) refl
      | inr unsold ↦ rw (allowed, left, unsold) refl
    ]

-- While a dish is off the menu, nobody orders it and nobody removes it.
create_order-refused :
    (key : ℕ) (body : OrderCreate) (maker : User) (ref : String) (id mid now : ℕ) (db made : Db)
    → IsGone key db
    → Found (asks_for key) body.items
    → create_order body maker ref id mid now db ≢ ok made
unfolding create_order
create_order-refused key body maker ref id mid now db made gone asked done =
    let (_, rest) = raise_if-eq-ok (ltb 0 body.discount && not (is_manager maker.role)) _ _ done in
    let (items, copied, _) =
      bind-eq-ok (snapshot db.menu_items maker.restaurant_id body.items) _ rest in
    snapshot_refuses key maker.restaurant_id db.menu_items body.items items gone asked copied

delete_item-refused :
    (key : ℕ) (user : User) (db made : Db) → IsGone key db → delete_item key user db ≢ ok made
unfolding delete_item get_any_item
delete_item-refused key user db made gone done =
    let (inner, _, _) = behind_guard user _ done in
    let (item, found, rest) =
      or_raise-eq-ok (select (of_tenant key user.restaurant_id) db.menu_items) _ _ inner in
    let (live, _) = raise_if-eq-ok item.is_archived _ _ rest in
    let tested = select-test (of_tenant key user.restaurant_id) db.menu_items item found in
    let off : IsOff key item =
      All-select (IsOff key) (of_tenant key user.restaurant_id) db.menu_items item gone found in
    let both : (is_menu_item key item && not item.is_archived) ≡ true = ground arith in absurd (cc)

-- What an accepted removal did.
removed :
    (key : ℕ) (user : User) (db db' : Db)
    → delete_item key user db ≡ ok db'
    → (item : MenuItem) × (item.id ≡ key)
      × (item.restaurant_id ≡ user.restaurant_id)
      × (require_roles managers user ≡ ok user)
      × Found (of_tenant key user.restaurant_id) db.menu_items
      × (remove_item item db ≡ db')
unfolding delete_item get_any_item
removed key user db db' done =
    let (u, passed, _) = bind-eq-ok (require_roles managers user) _ done in
    let allowed : require_roles managers user ≡ ok user =
      cc (passed, require_roles-same managers user u passed) in
    let (inner, _, _) = behind_guard user _ done in
    let (item, found, rest) =
      or_raise-eq-ok (select (of_tenant key user.restaurant_id) db.menu_items) _ _ inner in
    let (_, same) = raise_if-eq-ok item.is_archived _ _ rest in
    let tested = select-test (of_tenant key user.restaurant_id) db.menu_items item found in
    (
      item,
      ground arith,
      ground arith,
      allowed,
      Found-some (of_tenant key user.restaurant_id) db.menu_items item found,
      ok-injective same,
    )

-- Removing a dish, when accepted, leaves every order as it was, and removing it again right after
-- is refused, as already removed where it was ever ordered and as not found where it was not.
-- After any further accepted requests, by any users, that draw other ids for new dishes, no order
-- with a line of it is taken and nobody removes it again.
pub delete_item_retires :
    (key : ℕ) (user : User) (db db' db'' : Db) (body : OrderCreate) (maker remover : User)
    (ref : String) (id mid now : ℕ) (made left : Db)
    → delete_item key user db ≡ ok db'
    → Later key db' db''
    → Found (asks_for key) body.items
    → (db'.orders ≡ db.orders)
      × (delete_item key user db'
          ≡ err (
              if ltb 0 (times_ordered key db.orders) then already_removed else menu_item_not_found))
      × (create_order body maker ref id mid now db'' ≢ ok made)
      × (delete_item key remover db'' ≢ ok left)
delete_item_retires key user db db' db'' body maker remover ref id mid now made left done path
      asked =
    let (item, own, home, allowed, found, same) = removed key user db db' done in
    let gone = Later-IsGone path (subst (IsGone key) same (removed-IsGone key item db own)) in
    (
      sym (ap (λ (d : Db). d.orders) same) ∙ orders-remove_item item db,
      rw (← same) (second key item user db allowed own home found),
      create_order-refused key body maker ref id mid now db'' made gone asked,
      delete_item-refused key remover db'' left gone,
    )
