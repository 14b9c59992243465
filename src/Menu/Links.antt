-- ===== src/Menu/Links.antt =====
-- The foreign keys into the menu (models/order.py, models/menu.py, models/recipe.py).
use karibu.Prelude.{
  ℕ, ◌≡◌, false, List, [], ◌∷◌, arith, ltb, ◌==◌, select_all, update, length, All, All-mono,
  All-update, Found, Found-update,
}
use karibu.Order.{Order, OrderItem}
use karibu.Stock.{Category, MenuItem, RecipeLine}
use karibu.Db.{Db}
use karibu.Menu.{
  is_category, is_menu_item, holds_live, holds_archived, save_item, is_line_of, times_ordered,
}

abbrev pub OnMenu : List MenuItem → ℕ → Type 0
OnMenu menu key = Found (is_menu_item key) menu

abbrev pub HasDishes : List MenuItem → Order → Type 0
HasDishes menu o = All (λ (li : OrderItem). OnMenu menu li.menu_item_id) o.items

abbrev pub HasCategory : List Category → MenuItem → Type 0
HasCategory cats m = Found (is_category m.category_id) cats

-- Every line of an order and every recipe line has its dish, and every dish its category.
pub record IsLinked (db : Db) : Type 0 where
  pub dishes : All (HasDishes db.menu_items) db.orders
  pub categories : All (HasCategory db.categories) db.menu_items
  pub recipes : All (λ (r : RecipeLine). OnMenu db.menu_items r.menu_item_id) db.recipes

-- A change of the menu on which every dish is still found.
module _ (db : Db) (menu : List MenuItem) (h : IsLinked db)
    (finds : (key : ℕ) → OnMenu db.menu_items key → OnMenu menu key)
    (cats : All (HasCategory db.categories) menu) where
  pub with_menu-IsLinked : IsLinked (record db { menu_items = menu })
  with_menu-IsLinked = record {
    dishes =
        All-mono (HasDishes db.menu_items) (HasDishes menu) db.orders
          (λ o k. All-mono _ _ o.items (λ li. finds li.menu_item_id) k) h.dishes;
    categories = cats;
    recipes = All-mono _ _ db.recipes (λ r. finds r.menu_item_id) h.recipes;
  }

-- The dish `item` written back.
pub save_item-IsLinked :
    (db : Db) (item : MenuItem)
    → IsLinked db
    → HasCategory db.categories item
    → IsLinked (save_item item db)
save_item-IsLinked db item h has =
    with_menu-IsLinked db (update (is_menu_item item.id) (λ _. item) db.menu_items) h
      (λ key k.
        Found-update (is_menu_item key) (is_menu_item item.id) (λ _. item) db.menu_items
          (λ x a b. ground arith) k)
      (All-update (HasCategory db.categories) (HasCategory db.categories) (is_menu_item item.id)
        (λ _. item) db.menu_items (λ x p t. has) (λ x p t. p) h.categories)

-- No dish is left in a category without live and archived items.
pub none_held :
    (key : ℕ) (ms : List MenuItem)
    → ltb 0 (length (select_all (holds_live key) ms)) ≡ false
    → ltb 0 (length (select_all (holds_archived key) ms)) ≡ false
    → All (λ (m : MenuItem). (m.category_id == key) ≡ false) ms
none_held key [] h k = tt
none_held key (m ∷ ms) h k = (ground arith, none_held key ms (ground arith) (ground arith))

pub none_ordered :
    (key : ℕ) (os : List Order)
    → ltb 0 (times_ordered key os) ≡ false
    → All (λ (o : Order). All (λ (li : OrderItem). (li.menu_item_id == key) ≡ false) o.items) os
unfolding times_ordered
none_ordered key [] h = tt
none_ordered key (o ∷ os) h = (no_line o.items (ground arith), none_ordered key os (ground arith))
  where
    no_line :
        (is : List OrderItem)
        → ltb 0 (length (select_all (is_line_of key) is)) ≡ false
        → All (λ (li : OrderItem). (li.menu_item_id == key) ≡ false) is
    no_line [] h = tt
    no_line (li ∷ is) h = (ground arith, no_line is (ground arith))
