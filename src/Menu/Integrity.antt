-- ===== src/Menu/Integrity.antt =====
-- The handlers of routers/menu.py keep the foreign keys into the menu.
use karibu.Prelude.{
  ℕ, ◌≡◌, false, Option, none, some, List, [], ◌∷◌, ◌++◌, arith, ltb, ◌==◌, select, delete, All,
  All-append, All-mono, All-zip, All-delete, Found, Found-append, Found-cons, All-select,
  Found-update, Found-delete, Bool-cases, inl, inr, select-test,
}
use mathlib.Core.Path.{subst}
use karibu.Api.{ok, ◌>>=◌, bind-eq-ok, or_raise-eq-ok, raise_if-eq-ok, ok-injective}
use karibu.Access.{User}
use karibu.Access.Laws.{behind_guard}
use karibu.Order.{Order, OrderItem}
use karibu.Stock.{Category, MenuItem, RecipeLine}
use karibu.Db.{Db}
use karibu.Menu.{
  CategoryCreate, CategoryUpdate, MenuItemCreate, MenuItemUpdate, is_category, is_menu_item,
  in_scope, of_tenant, live_of, get_scoped_category, get_scoped_item, get_any_item, create_category,
  edit_category, update_category, holds_live, holds_archived, count_items, delete_category,
  new_menu_item, create_item, category_for, edit_menu_item, update_item, times_ordered,
  is_recipe_of, archived, remove_item, delete_item, MenuRequest, add_category, edit_category_of,
  drop_category, add_item, edit_item_of, drop_item, handle_menu,
}
use karibu.Menu.Links.{
  IsLinked, HasCategory, HasDishes, OnMenu, with_menu-IsLinked, save_item-IsLinked, none_held,
  none_ordered,
}

-- The category that a request names is a row of the table.
category_of_key :
    (cats : List Category) (key rid : ℕ) (c : Category)
    → select (in_scope key rid) cats ≡ some c
    → Found (is_category key) cats
category_of_key [] key rid c h = absurd (cc)
category_of_key (x ∷ xs) key rid c h = elim (Bool-cases (in_scope key rid x)) [
  | inl e ↦ ground arith
  | inr e ↦ Found-cons (is_category key) x xs (category_of_key xs key rid c (rw e at h))
]

category_of_id :
    (cats : List Category) (key rid : ℕ) (c : Category)
    → select (in_scope key rid) cats ≡ some c
    → Found (is_category c.id) cats
category_of_id cats key rid c h =
    let tested = select-test (in_scope key rid) cats c h in
    let same : key ≡ c.id = ground arith in
    subst (λ k. Found (is_category k) cats) same (category_of_key cats key rid c h)

create_category-IsLinked :
    (body : CategoryCreate) (user : User) (key : ℕ) (db db' : Db)
    → create_category body user key db ≡ ok db'
    → IsLinked db
    → IsLinked db'
unfolding create_category
create_category-IsLinked body user key db db' done h =
    let (inner, _, _) = behind_guard user _ done in
    subst IsLinked (ok-injective inner) (record {
      dishes = h.dishes;
      categories =
          All-mono (HasCategory db.categories) _ db.menu_items
            (λ m k. Found-append (is_category m.category_id) db.categories _ k) h.categories;
      recipes = h.recipes;
    })

update_category-IsLinked :
    (key : ℕ) (body : CategoryUpdate) (user : User) (db db' : Db)
    → update_category key body user db ≡ ok db'
    → IsLinked db
    → IsLinked db'
unfolding update_category edit_category
update_category-IsLinked key body user db db' done h =
    let (inner, _, _) = behind_guard user _ done in
    let (cat, found, same) = bind-eq-ok (get_scoped_category db key user.restaurant_id) _ inner in
    subst IsLinked (ok-injective same) (record {
      dishes = h.dishes;
      categories =
          All-mono (HasCategory db.categories) _ db.menu_items
            (λ m k.
              Found-update (is_category m.category_id) (is_category cat.id)
                (λ _. edit_category body cat) db.categories (λ x a b. ground arith) k)
            h.categories;
      recipes = h.recipes;
    })

delete_category-IsLinked :
    (key : ℕ) (user : User) (db db' : Db)
    → delete_category key user db ≡ ok db'
    → IsLinked db
    → IsLinked db'
unfolding delete_category count_items
delete_category-IsLinked key user db db' done h =
    let (inner, _, _) = behind_guard user _ done in
    let (cat, found, rest) = bind-eq-ok (get_scoped_category db key user.restaurant_id) _ inner in
    let (no_live, rest1) = raise_if-eq-ok (ltb 0 (count_items (holds_live cat.id) db)) _ _ rest in
    let (no_old, same) =
      raise_if-eq-ok (ltb 0 (count_items (holds_archived cat.id) db)) _ _ rest1 in
    subst IsLinked (ok-injective same) (record {
      dishes = h.dishes;
      categories =
          All-zip (HasCategory db.categories) (λ (m : MenuItem). (m.category_id == cat.id) ≡ false)
            _ db.menu_items
            (λ m k other.
              Found-delete (is_category m.category_id) (is_category cat.id) db.categories
                (λ x t. ground arith) k)
            h.categories (none_held cat.id db.menu_items no_live no_old);
      recipes = h.recipes;
    })

create_item-IsLinked :
    (body : MenuItemCreate) (user : User) (key : ℕ) (db db' : Db)
    → create_item body user key db ≡ ok db'
    → IsLinked db
    → IsLinked db'
unfolding create_item get_scoped_category new_menu_item
create_item-IsLinked body user key db db' done h =
    let (inner, _, _) = behind_guard user _ done in
    let (cat, found, same) =
      or_raise-eq-ok (select (in_scope body.category_id user.restaurant_id) db.categories) _ _
        inner in
    let has = category_of_id db.categories body.category_id user.restaurant_id cat found in
    subst IsLinked (ok-injective same) (
      with_menu-IsLinked db (db.menu_items ++ new_menu_item body cat user key ∷ []) h
        (λ k f. Found-append (is_menu_item k) db.menu_items _ f)
        (All-append (HasCategory db.categories) db.menu_items _ h.categories (has, tt)))

-- The category that an update leaves is one of the table.
category_for-Found :
    (body : MenuItemUpdate) (item : MenuItem) (user : User) (db : Db) (key : ℕ)
    → category_for body item user db ≡ ok key
    → HasCategory db.categories item
    → Found (is_category key) db.categories
unfolding category_for get_scoped_category
category_for-Found body item user db key done has = of_choice body.category_id done
  where
    of_choice :
        (choice : Option ℕ)
        → elim choice [
          | none ↦ ok item.category_id
          | some k ↦ (get_scoped_category db k user.restaurant_id >>= λ cat. ok k)
        ]
          ≡ ok key
        → Found (is_category key) db.categories
    of_choice none done = rw (← ok-injective done) has
    of_choice (some k) done =
        let (cat, found, same) =
          or_raise-eq-ok (select (in_scope k user.restaurant_id) db.categories) _ _ done in
        rw (← ok-injective same) (category_of_key db.categories k user.restaurant_id cat found)

update_item-IsLinked :
    (key : ℕ) (body : MenuItemUpdate) (user : User) (db db' : Db)
    → update_item key body user db ≡ ok db'
    → IsLinked db
    → IsLinked db'
unfolding update_item get_scoped_item edit_menu_item
update_item-IsLinked key body user db db' done h =
    let (inner, _, _) = behind_guard user _ done in
    let (item, found, rest) =
      or_raise-eq-ok (select (live_of key user.restaurant_id) db.menu_items) _ _ inner in
    let (cat, chosen, same) = bind-eq-ok (category_for body item user db) _ rest in
    let has =
      All-select (HasCategory db.categories) (live_of key user.restaurant_id) db.menu_items item
        h.categories found in
    subst IsLinked (ok-injective same) (
      save_item-IsLinked db (edit_menu_item body cat item) h
        (category_for-Found body item user db cat chosen has))

delete_item-IsLinked :
    (key : ℕ) (user : User) (db db' : Db)
    → delete_item key user db ≡ ok db'
    → IsLinked db
    → IsLinked db'
unfolding delete_item get_any_item remove_item archived
delete_item-IsLinked key user db db' done h =
    let (inner, _, _) = behind_guard user _ done in
    let (item, found, rest) =
      or_raise-eq-ok (select (of_tenant key user.restaurant_id) db.menu_items) _ _ inner in
    let (_, same) = raise_if-eq-ok item.is_archived _ _ rest in
    let has =
      All-select (HasCategory db.categories) (of_tenant key user.restaurant_id) db.menu_items item
        h.categories found in
    subst IsLinked (ok-injective same)
      (elim (Bool-cases (ltb 0 (times_ordered item.id db.orders))) [
        | inl sold ↦ rw (remove_item, sold) (save_item-IsLinked db (archived item) h has)
        | inr unsold ↦ rw (remove_item, unsold) (dropped item unsold)
      ])
  where
    dropped :
        (item : MenuItem)
        → ltb 0 (times_ordered item.id db.orders) ≡ false
        → IsLinked (record db {
          menu_items = delete (is_menu_item item.id) db.menu_items;
          recipes = delete (is_recipe_of item.id) db.recipes;
        })
    dropped item unsold = record {
      dishes =
          All-zip (HasDishes db.menu_items)
            (λ (o : Order). All (λ (li : OrderItem). (li.menu_item_id == item.id) ≡ false) o.items)
            _ db.orders
            (λ o k no.
              All-zip _ (λ (li : OrderItem). (li.menu_item_id == item.id) ≡ false) _ o.items
                (λ li f other. kept li.menu_item_id item.id other f) k no)
            h.dishes (none_ordered item.id db.orders unsold);
      categories =
          All-delete (HasCategory db.categories) (HasCategory db.categories) (is_menu_item item.id)
            db.menu_items (λ m k t. k) h.categories;
      recipes =
          All-delete (λ (r : RecipeLine). OnMenu db.menu_items r.menu_item_id) _
            (is_recipe_of item.id) db.recipes (λ r k t. kept r.menu_item_id item.id t k) h.recipes;
    }
      where
        kept :
            (k gone : ℕ)
            → (k == gone) ≡ false
            → OnMenu db.menu_items k
            → OnMenu (delete (is_menu_item gone) db.menu_items) k
        kept k gone other f =
            Found-delete (is_menu_item k) (is_menu_item gone) db.menu_items (λ x t. ground arith) f

-- todo
pub handle_menu-IsLinked :
    (r : MenuRequest) (user : User) (db db' : Db)
    → handle_menu r user db ≡ ok db'
    → IsLinked db
    → IsLinked db'
unfolding handle_menu
handle_menu-IsLinked (add_category body key) user db db' done =
    create_category-IsLinked body user key db db' done
handle_menu-IsLinked (edit_category_of key body) user db db' done =
    update_category-IsLinked key body user db db' done
handle_menu-IsLinked (drop_category key) user db db' done =
    delete_category-IsLinked key user db db' done
handle_menu-IsLinked (add_item body key) user db db' done =
    create_item-IsLinked body user key db db' done
handle_menu-IsLinked (edit_item_of key body) user db db' done =
    update_item-IsLinked key body user db db' done
handle_menu-IsLinked (drop_item key) user db db' done = delete_item-IsLinked key user db db' done
