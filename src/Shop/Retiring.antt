-- ===== src/Shop/Retiring.antt =====
-- What later requests do to a dish that is off the menu (routers/menu.py).
use karibu.Prelude.{
  ℕ, ◌≡◌, ◌≢◌, sym, ap, false, ◌&&◌, not, arith, ltb, select, All, All-append, All-update,
  All-select, All-delete, Bool-cases, inl, inr,
}
use mathlib.Core.Path.{subst}
use karibu.Api.{ok, bind-eq-ok, or_raise-eq-ok, raise_if-eq-ok, ok-injective}
use karibu.Access.{User}
use karibu.Access.Laws.{behind_guard}
use karibu.Stock.{MenuItem}
use karibu.Db.{Db}
use karibu.Menu.{
  MenuItemCreate, MenuItemUpdate, is_menu_item, in_scope, of_tenant, live_of, get_scoped_category,
  get_scoped_item, get_any_item, create_category, update_category, delete_category, holds_live,
  holds_archived, count_items, new_menu_item, create_item, category_for, edit_menu_item,
  update_item, times_ordered, archived, remove_item, delete_item, MenuRequest, add_category,
  edit_category_of, drop_category, add_item, edit_item_of, drop_item, handle_menu,
}
use karibu.Shop.SameMenu.{
  SameMenu, create_order-SameMenu, cancel_order-SameMenu, update_status-SameMenu,
  record_payment-SameMenu, pay_debt-SameMenu, create_stock_item-SameMenu, set_recipe-SameMenu,
  update_stock_item-SameMenu, archive_stock_item-SameMenu, record_movement-SameMenu,
}
use karibu.Expenses.Requests.{handle_expense-ExpensesOnly}
use karibu.Shop.{
  Request, place, restatus, pay, cancel, repay, stock, edit, archive, move, link, on_menu, spend,
  handle,
}

-- No row of the dish is on the menu.
abbrev pub IsOff : ℕ → MenuItem → Type 0
IsOff key m = (is_menu_item key m && not m.is_archived) ≡ false

abbrev pub IsGone : ℕ → Db → Type 0
IsGone key db = All (IsOff key) db.menu_items

-- A new dish has another id, as `uuid4` draws it.
abbrev pub DrawsOther : ℕ → Request → Type 0
DrawsOther key (on_menu (add_item body drawn)) = drawn ≢ key
DrawsOther key _ = Unit

-- What is reached from a state by accepted requests that draw other ids.
pub data Later (key : ℕ) (db : Db) : Db → Type 0 where
  now_on : Later key db db
  after_that :
      {d d' : Db}
      → Later key db d
      → (r : Request) (user : User) → DrawsOther key r
      → handle r user d ≡ ok d'
      → Later key db d'

remove_item-IsGone :
    (key : ℕ) (item : MenuItem) (db : Db) → IsGone key db → IsGone key (remove_item item db)
unfolding remove_item archived
remove_item-IsGone key item db gone = elim (Bool-cases (ltb 0 (times_ordered item.id db.orders))) [
  | inl sold ↦
      rw (remove_item, sold)
        (All-update (IsOff key) (IsOff key) (is_menu_item item.id) (λ _. archived item)
          db.menu_items (λ x k t. ground arith) (λ x k t. k) gone)
  | inr unsold ↦
      rw (remove_item, unsold)
        (All-delete (IsOff key) (IsOff key) (is_menu_item item.id) db.menu_items (λ x k t. k) gone)
]

create_item-IsGone :
    (key drawn : ℕ) (body : MenuItemCreate) (user : User) (db db' : Db)
    → drawn ≢ key
    → create_item body user drawn db ≡ ok db'
    → IsGone key db
    → IsGone key db'
unfolding create_item get_scoped_category new_menu_item
create_item-IsGone key drawn body user db db' other done gone =
    let (inner, _, _) = behind_guard user _ done in
    let (cat, _, same) =
      or_raise-eq-ok (select (in_scope body.category_id user.restaurant_id) db.categories) _ _
        inner in
    subst (IsGone key) (ok-injective same)
      (All-append (IsOff key) db.menu_items _ gone (ground arith, tt))

-- An update is of a dish on the menu, so it is of another one.
update_item-IsGone :
    (key target : ℕ) (body : MenuItemUpdate) (user : User) (db db' : Db)
    → update_item target body user db ≡ ok db'
    → IsGone key db
    → IsGone key db'
unfolding update_item get_scoped_item edit_menu_item
update_item-IsGone key target body user db db' done gone =
    let (inner, _, _) = behind_guard user _ done in
    let (item, found, rest) =
      or_raise-eq-ok (select (live_of target user.restaurant_id) db.menu_items) _ _ inner in
    let (category, _, same) = bind-eq-ok (category_for body item user db) _ rest in
    let off : IsOff key item =
      All-select (IsOff key) (live_of target user.restaurant_id) db.menu_items item gone found in
    subst (IsGone key) (ok-injective same) (
      All-update (IsOff key) (IsOff key) (is_menu_item item.id)
        (λ _. edit_menu_item body category item) db.menu_items (λ x k t. off) (λ x k t. k) gone)

delete_item-IsGone :
    (key target : ℕ) (user : User) (db db' : Db)
    → delete_item target user db ≡ ok db'
    → IsGone key db
    → IsGone key db'
unfolding delete_item get_any_item
delete_item-IsGone key target user db db' done gone =
    let (inner, _, _) = behind_guard user _ done in
    let (item, _, rest) =
      or_raise-eq-ok (select (of_tenant target user.restaurant_id) db.menu_items) _ _ inner in
    let (_, same) = raise_if-eq-ok item.is_archived _ _ rest in
    subst (IsGone key) (ok-injective same) (remove_item-IsGone key item db gone)

handle_menu-IsGone :
    (key : ℕ) (r : MenuRequest) (user : User) (db db' : Db)
    → DrawsOther key (on_menu r)
    → handle_menu r user db ≡ ok db'
    → IsGone key db
    → IsGone key db'
unfolding handle_menu create_category update_category delete_category
handle_menu-IsGone key (add_category body drawn) user db db' other done gone =
    let (inner, _, _) = behind_guard user _ done in subst (IsGone key) (ok-injective inner) gone
handle_menu-IsGone key (edit_category_of target body) user db db' other done gone =
    let (inner, _, _) = behind_guard user _ done in
    let (cat, _, same) = bind-eq-ok (get_scoped_category db target user.restaurant_id) _ inner in
    subst (IsGone key) (ok-injective same) gone
handle_menu-IsGone key (drop_category target) user db db' other done gone =
    let (inner, _, _) = behind_guard user _ done in
    let (cat, _, rest) = bind-eq-ok (get_scoped_category db target user.restaurant_id) _ inner in
    let (_, rest1) = raise_if-eq-ok (ltb 0 (count_items (holds_live cat.id) db)) _ _ rest in
    let (_, same) = raise_if-eq-ok (ltb 0 (count_items (holds_archived cat.id) db)) _ _ rest1 in
    subst (IsGone key) (ok-injective same) gone
handle_menu-IsGone key (add_item body drawn) user db db' other done gone =
    create_item-IsGone key drawn body user db db' other done gone
handle_menu-IsGone key (edit_item_of target body) user db db' other done gone =
    update_item-IsGone key target body user db db' done gone
handle_menu-IsGone key (drop_item target) user db db' other done gone =
    delete_item-IsGone key target user db db' done gone

SameMenu-IsGone : (key : ℕ) (db db' : Db) → SameMenu db db' → IsGone key db → IsGone key db'
SameMenu-IsGone key db db' same gone = rw same gone

handle-IsGone :
    (key : ℕ) (r : Request) (user : User) (db db' : Db)
    → DrawsOther key r
    → handle r user db ≡ ok db'
    → IsGone key db
    → IsGone key db'
unfolding handle
handle-IsGone key (place body ref id mid now) user db db' other done =
    SameMenu-IsGone key db db' (create_order-SameMenu body user ref id mid now db db' done)
handle-IsGone key (restatus id text) user db db' other done =
    SameMenu-IsGone key db db' (update_status-SameMenu id text user db db' done)
handle-IsGone key (pay id body now new_id) user db db' other done =
    SameMenu-IsGone key db db' (record_payment-SameMenu id body user now new_id db db' done)
handle-IsGone key (cancel id now mid) user db db' other done =
    SameMenu-IsGone key db db' (cancel_order-SameMenu id user now mid db db' done)
handle-IsGone key (repay id body now) user db db' other done =
    SameMenu-IsGone key db db' (pay_debt-SameMenu id body user now db db' done)
handle-IsGone key (stock body id mid now) user db db' other done =
    SameMenu-IsGone key db db' (create_stock_item-SameMenu body user id mid now db db' done)
handle-IsGone key (edit id body) user db db' other done =
    SameMenu-IsGone key db db' (update_stock_item-SameMenu id body user db db' done)
handle-IsGone key (archive id) user db db' other done =
    SameMenu-IsGone key db db' (archive_stock_item-SameMenu id user db db' done)
handle-IsGone key (move id body what now mid eid) user db db' other done =
    SameMenu-IsGone key db db' (record_movement-SameMenu id body user what now mid eid db db' done)
handle-IsGone key (link id body) user db db' other done =
    SameMenu-IsGone key db db' (set_recipe-SameMenu id body user db db' done)
handle-IsGone key (on_menu r) user db db' other done =
    handle_menu-IsGone key r user db db' other done
handle-IsGone key (spend r) user db db' other done =
    SameMenu-IsGone key db db'
      (sym (ap (λ (d : Db). d.menu_items) (handle_expense-ExpensesOnly r user db db' done).rest))

-- A dish that is off the menu stays off it.
pub Later-IsGone : {key : ℕ} {db db' : Db} → Later key db db' → IsGone key db → IsGone key db'
Later-IsGone now_on gone = gone
Later-IsGone (after_that {d = d} {d' = d'} path r user other done) gone =
    handle-IsGone _ r user d d' other done (Later-IsGone path gone)
