-- ===== src/Menu.antt =====
-- routers/menu.py: categories and dishes. A deletion in the database cascades to the recipe lines of
-- a dish (models/recipe.py).
pub mod Links
pub mod Integrity
pub mod Apart
pub mod History
use karibu.Prelude.{
  ℕ, String, Bool, true, false, ◌&&◌, not, Option, none, some, List, [], ◌∷◌, ◌++◌, ltb, ◌==◌,
  if◌then◌else◌, select, select_all, update, delete, strip, Decimal, to_cents, length, sum_of,
}
use karibu.Prelude.Int.{ℤ}
use karibu.Api.{
  Result, ok, ◌>>=◌, ◌>>◌, raise_if, or_raise, menu_item_not_found, category_not_found,
  category_not_empty, category_has_archived_items, already_removed,
}
use karibu.Access.{User, require_roles, managers}
use karibu.Order.{Order, OrderItem}
use karibu.Stock.{Category, MenuItem, RecipeLine}
use karibu.Db.{Db}

-- the requests of schemas/menu.py
pub record CategoryCreate : Type 0 where
  pub name : String
  pub icon : String
  pub sort_order : ℤ

pub record CategoryUpdate : Type 0 where
  pub name : Option String
  pub icon : Option String
  pub sort_order : Option ℤ

pub record MenuItemCreate : Type 0 where
  pub name : String
  pub price : Decimal
  pub category_id : ℕ
  pub description : Option String
  pub image_url : Option String
  pub prep_minutes : ℤ
  pub is_available : Bool

pub record MenuItemUpdate : Type 0 where
  pub name : Option String
  pub price : Option Decimal
  pub category_id : Option ℕ
  pub description : Option String
  pub image_url : Option String
  pub prep_minutes : Option ℤ
  pub is_available : Option Bool

abbrev pub is_category : ℕ → Category → Bool
is_category key c = c.id == key

abbrev pub is_menu_item : ℕ → MenuItem → Bool
is_menu_item key m = m.id == key

abbrev pub in_scope : ℕ → ℕ → Category → Bool
in_scope key rid c = c.id == key && c.restaurant_id == rid

abbrev pub of_tenant : ℕ → ℕ → MenuItem → Bool
of_tenant key rid m = m.id == key && m.restaurant_id == rid

abbrev pub live_of : ℕ → ℕ → MenuItem → Bool
live_of key rid m = (m.id == key && m.restaurant_id == rid) && not m.is_archived

-- `_get_scoped_category`
unfoldable pub get_scoped_category : Db → ℕ → ℕ → Result Category
get_scoped_category db key rid =
    or_raise (select (in_scope key rid) db.categories) category_not_found

-- `_get_scoped_item`, without archived items and with them
unfoldable pub get_scoped_item : Db → ℕ → ℕ → Result MenuItem
get_scoped_item db key rid = or_raise (select (live_of key rid) db.menu_items) menu_item_not_found

unfoldable pub get_any_item : Db → ℕ → ℕ → Result MenuItem
get_any_item db key rid = or_raise (select (of_tenant key rid) db.menu_items) menu_item_not_found

-- `create_category`; `key` is the id of the new row
unfoldable pub create_category : CategoryCreate → User → ℕ → Db → Result Db
create_category body user key db = do
  caller ← require_roles managers user
  ok (record db {
    categories =
        db.categories
        ++ record {
          id = key;
          restaurant_id = caller.restaurant_id;
          name = strip body.name;
          icon = body.icon;
          sort_order = body.sort_order;
        }
          ∷ [];
  })

-- a column that the request may leave as it is
abbrev given {ℓ} : {A : Type ℓ} → Option A → A → A
given none old = old
given (some new) old = new

abbrev given_or {ℓ} : {A : Type ℓ} → Option A → Option A → Option A
given_or none old = old
given_or (some new) old = some new

abbrev given_name : Option String → String → String
given_name none old = old
given_name (some new) old = strip new

abbrev given_cents : Option Decimal → ℕ → ℕ
given_cents none old = old
given_cents (some price) old = to_cents price

-- the assignments of `update_category`
unfoldable pub edit_category : CategoryUpdate → Category → Category
edit_category body cat = record cat {
  name = given_name body.name cat.name;
  icon = given body.icon cat.icon;
  sort_order = given body.sort_order cat.sort_order;
}

-- `update_category`
unfoldable pub update_category : ℕ → CategoryUpdate → User → Db → Result Db
update_category key body user db = do
  caller ← require_roles managers user
  cat ← get_scoped_category db key caller.restaurant_id
  ok (record db {
    categories = update (is_category cat.id) (λ _. edit_category body cat) db.categories;
  })

-- the counts of `delete_category`, of live and of archived items
abbrev pub holds_live : ℕ → MenuItem → Bool
holds_live key m = m.category_id == key && not m.is_archived

abbrev pub holds_archived : ℕ → MenuItem → Bool
holds_archived key m = m.category_id == key && m.is_archived

unfoldable pub count_items : (MenuItem → Bool) → Db → ℕ
count_items test db = length (select_all test db.menu_items)

-- `delete_category`
unfoldable pub delete_category : ℕ → User → Db → Result Db
delete_category key user db = do
  caller ← require_roles managers user
  cat ← get_scoped_category db key caller.restaurant_id
  raise_if (ltb 0 (count_items (holds_live cat.id) db)) category_not_empty
  raise_if (ltb 0 (count_items (holds_archived cat.id) db)) category_has_archived_items
  ok (record db { categories = delete (is_category cat.id) db.categories })

-- the `MenuItem(…)` of `create_item`
unfoldable pub new_menu_item : MenuItemCreate → Category → User → ℕ → MenuItem
new_menu_item body cat user key = record {
  id = key;
  restaurant_id = user.restaurant_id;
  name = strip body.name;
  description = body.description;
  price_cents = to_cents body.price;
  image_url = body.image_url;
  prep_minutes = body.prep_minutes;
  category_id = cat.id;
  is_available = body.is_available;
  is_archived = false;
}

-- `create_item`
unfoldable pub create_item : MenuItemCreate → User → ℕ → Db → Result Db
create_item body user key db = do
  caller ← require_roles managers user
  cat ← get_scoped_category db body.category_id caller.restaurant_id
  ok (record db { menu_items = db.menu_items ++ new_menu_item body cat caller key ∷ [] })

-- the category that an update leaves
unfoldable pub category_for : MenuItemUpdate → MenuItem → User → Db → Result ℕ
unfolding get_scoped_category
category_for body item user db = elim body.category_id [
  | none ↦ ok item.category_id
  | some key ↦ (get_scoped_category db key user.restaurant_id >>= λ cat. ok key)
]

-- the assignments of `update_item`
unfoldable pub edit_menu_item : MenuItemUpdate → ℕ → MenuItem → MenuItem
edit_menu_item body category item = record item {
  name = given_name body.name item.name;
  description = given_or body.description item.description;
  price_cents = given_cents body.price item.price_cents;
  image_url = given_or body.image_url item.image_url;
  prep_minutes = given body.prep_minutes item.prep_minutes;
  is_available = given body.is_available item.is_available;
  category_id = category;
}

abbrev pub save_item : MenuItem → Db → Db
save_item item db = record db {
  menu_items = update (is_menu_item item.id) (λ _. item) db.menu_items;
}

-- `update_item`
unfoldable pub update_item : ℕ → MenuItemUpdate → User → Db → Result Db
update_item key body user db = do
  caller ← require_roles managers user
  item ← get_scoped_item db key caller.restaurant_id
  category ← category_for body item caller db
  ok (save_item (edit_menu_item body category item) db)

-- the lines of all orders that are of a dish
abbrev pub is_line_of : ℕ → OrderItem → Bool
is_line_of key li = li.menu_item_id == key

unfoldable pub times_ordered : ℕ → List Order → ℕ
times_ordered key = sum_of (λ (o : Order). length (select_all (is_line_of key) o.items))

abbrev pub is_recipe_of : ℕ → RecipeLine → Bool
is_recipe_of key r = r.menu_item_id == key

-- an item that was ordered is archived; another one is deleted, with its recipe lines
unfoldable pub archived : MenuItem → MenuItem
archived item = record item { is_archived = true; is_available = false }

unfoldable pub remove_item : MenuItem → Db → Db
remove_item item db =
    if ltb 0 (times_ordered item.id db.orders) then save_item (archived item) db else record db {
      menu_items = delete (is_menu_item item.id) db.menu_items;
      recipes = delete (is_recipe_of item.id) db.recipes;
    }

-- `delete_item`
unfoldable pub delete_item : ℕ → User → Db → Result Db
delete_item key user db = do
  caller ← require_roles managers user
  item ← get_any_item db key caller.restaurant_id
  raise_if item.is_archived already_removed
  ok (remove_item item db)

-- A request to these handlers, with the ids that they draw.
pub data MenuRequest : Type 0 where
  add_category : CategoryCreate → ℕ → MenuRequest
  edit_category_of : ℕ → CategoryUpdate → MenuRequest
  drop_category : ℕ → MenuRequest
  add_item : MenuItemCreate → ℕ → MenuRequest
  edit_item_of : ℕ → MenuItemUpdate → MenuRequest
  drop_item : ℕ → MenuRequest

unfoldable pub handle_menu : MenuRequest → User → Db → Result Db
handle_menu (add_category body key) user db = create_category body user key db
handle_menu (edit_category_of key body) user db = update_category key body user db
handle_menu (drop_category key) user db = delete_category key user db
handle_menu (add_item body key) user db = create_item body user key db
handle_menu (edit_item_of key body) user db = update_item key body user db
handle_menu (drop_item key) user db = delete_item key user db
