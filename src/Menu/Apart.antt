-- ===== src/Menu/Apart.antt =====
-- The handlers of routers/menu.py write only the categories, the dishes and the recipes.
use karibu.Prelude.{◌≡◌, refl, List, ltb, Bool-cases, inl, inr}
use mathlib.Core.Path.{subst}
use karibu.Api.{ok, bind-eq-ok, raise_if-eq-ok, ok-injective}
use karibu.Access.{User}
use karibu.Access.Laws.{behind_guard}
use karibu.Stock.{Category, MenuItem, RecipeLine}
use karibu.Db.{Db}
use karibu.Menu.{
  get_scoped_category, get_scoped_item, get_any_item, create_category, update_category, holds_live,
  holds_archived, count_items, delete_category, create_item, category_for, update_item,
  times_ordered, remove_item, delete_item, MenuRequest, add_category, edit_category_of,
  drop_category, add_item, edit_item_of, drop_item, handle_menu,
}

-- `db'` is `db` but for what the menu is made of.
pub record MenuOnly (db db' : Db) : Type 0 where
  pub cats : List Category
  pub menu : List MenuItem
  pub recipes : List RecipeLine
  pub rest : record db { categories = cats; menu_items = menu; recipes = recipes } ≡ db'

remove_item-MenuOnly : (item : MenuItem) (db : Db) → MenuOnly db (remove_item item db)
unfolding remove_item
remove_item-MenuOnly item db = elim (Bool-cases (ltb 0 (times_ordered item.id db.orders))) [
  | inl sold ↦ rw (remove_item, sold) (record { cats = _; menu = _; recipes = _; rest = refl })
  | inr unsold ↦ rw (remove_item, unsold) (record { cats = _; menu = _; recipes = _; rest = refl })
]

pub handle_menu-MenuOnly :
    (r : MenuRequest) (user : User) (db db' : Db) → handle_menu r user db ≡ ok db' → MenuOnly db db'
unfolding handle_menu create_category update_category delete_category create_item update_item
    delete_item
handle_menu-MenuOnly (add_category body key) user db db' done =
    let (inner, _, _) = behind_guard user _ done in
    record { cats = _; menu = _; recipes = _; rest = ok-injective inner }
handle_menu-MenuOnly (edit_category_of key body) user db db' done =
    let (inner, _, _) = behind_guard user _ done in
    let (cat, _, same) = bind-eq-ok (get_scoped_category db key user.restaurant_id) _ inner in
    record { cats = _; menu = _; recipes = _; rest = ok-injective same }
handle_menu-MenuOnly (drop_category key) user db db' done =
    let (inner, _, _) = behind_guard user _ done in
    let (cat, _, rest) = bind-eq-ok (get_scoped_category db key user.restaurant_id) _ inner in
    let (_, rest1) = raise_if-eq-ok (ltb 0 (count_items (holds_live cat.id) db)) _ _ rest in
    let (_, same) = raise_if-eq-ok (ltb 0 (count_items (holds_archived cat.id) db)) _ _ rest1 in
    record { cats = _; menu = _; recipes = _; rest = ok-injective same }
handle_menu-MenuOnly (add_item body key) user db db' done =
    let (inner, _, _) = behind_guard user _ done in
    let (cat, _, same) =
      bind-eq-ok (get_scoped_category db body.category_id user.restaurant_id) _ inner in
    record { cats = _; menu = _; recipes = _; rest = ok-injective same }
handle_menu-MenuOnly (edit_item_of key body) user db db' done =
    let (inner, _, _) = behind_guard user _ done in
    let (item, _, rest) = bind-eq-ok (get_scoped_item db key user.restaurant_id) _ inner in
    let (cat, _, same) = bind-eq-ok (category_for body item user db) _ rest in
    record { cats = _; menu = _; recipes = _; rest = ok-injective same }
handle_menu-MenuOnly (drop_item key) user db db' done =
    let (inner, _, _) = behind_guard user _ done in
    let (item, _, rest) = bind-eq-ok (get_any_item db key user.restaurant_id) _ inner in
    let (_, same) = raise_if-eq-ok item.is_archived _ _ rest in
    subst (MenuOnly db) (ok-injective same) (remove_item-MenuOnly item db)
