-- ===== src/Shop/Linking.antt =====
-- Every request leaves the foreign keys into the menu valid.
use karibu.Prelude.{
  Option-cases, ℕ, ◌≡◌, String, some, List, [], arith, select, All, All-append, All-update,
  All-delete, Bool-cases, inl, inr, leb, is_some,
}
use mathlib.Core.Path.{subst, sym}
use karibu.Api.{ok, bind-eq-ok, or_raise-eq-ok, ok-injective, menu_item_not_found}
use karibu.Access.{User}
use karibu.Access.Laws.{behind_guard}
use karibu.Stock.{StockItem, StockMovement, MenuItem, RecipeLine}
use karibu.Expense.{Expense}
use karibu.Db.{Db}
use karibu.Stock.Routes.{
  StockItemCreate, StockItemUpdate, MovementCreate, RecipeSet, create_stock_item, update_stock_item,
  archive_stock_item, get_item, link_dish, is_dish,
}
use karibu.Stock.Movements.{record_movement, commit_movement}
use karibu.Stock.Keeps.{record_movement-eq-ok}
use karibu.Stock.Recipes.{set_recipe, set_link, is_link}
use karibu.Menu.Links.{IsLinked, OnMenu}
use karibu.Menu.Integrity.{handle_menu-IsLinked}
use karibu.Expenses.Requests.{handle_expense-ExpensesOnly}
use karibu.Shop.{
  Request, place, restatus, pay, cancel, repay, stock, edit, archive, move, link, on_menu, spend,
  handle,
}
use karibu.Shop.Dishes.{
  dish_found, create_order-IsLinked, cancel_order-IsLinked, update_status-IsLinked,
  record_payment-IsLinked, pay_debt-IsLinked,
}

abbrev HasDish : List MenuItem → RecipeLine → Type 0
HasDish menu r = OnMenu menu r.menu_item_id

-- Only the shelf, the recipes or the expenses change.
with_recipes-IsLinked :
    (db : Db) (items : List StockItem) (ms : List StockMovement) (rs : List RecipeLine)
    (es : List Expense)
    → IsLinked db
    → All (HasDish db.menu_items) rs
    → IsLinked (record db { stock_items = items; movements = ms; recipes = rs; expenses = es })
with_recipes-IsLinked db items ms rs es h has = record {
  dishes = h.dishes;
  categories = h.categories;
  recipes = has;
}

dish_row :
    (db : Db) (key rid : ℕ) (m : MenuItem)
    → select (is_dish key rid) db.menu_items ≡ some m
    → OnMenu db.menu_items m.id
dish_row db key rid m found =
    dish_found (is_dish key rid) key db.menu_items m (λ x t. ground arith) found

link_dish-HasDish :
    (db : Db) (user : User) (body : StockItemCreate) (key : ℕ) (linked : List RecipeLine)
    → link_dish db user body key ≡ ok linked
    → All (HasDish db.menu_items) linked
unfolding link_dish
link_dish-HasDish db user body key linked done = elim (Option-cases body.menu_item_id) [
  | inl no_dish ↦
      subst (All (HasDish db.menu_items)) (let same : [] ≡ linked = ground arith in same) tt
  | inr (dish_id, named) ↦ elim (Option-cases body.portions_per_unit) [
    | inl no_yield ↦
        subst (All (HasDish db.menu_items)) (let same : [] ≡ linked = ground arith in same) tt
    | inr (portions, yields) ↦
        let (dish, found, same) =
          or_raise-eq-ok (select (is_dish dish_id user.restaurant_id) db.menu_items)
            menu_item_not_found _ (rw (link_dish, named, yields) at done) in
        subst (All (HasDish db.menu_items)) (ok-injective same)
          (dish_row db dish_id user.restaurant_id dish found, tt)
  ]
]

create_stock_item-IsLinked :
    (body : StockItemCreate) (user : User) (key mid now : ℕ) (db db' : Db)
    → IsLinked db
    → create_stock_item body user key mid now db ≡ ok db'
    → IsLinked db'
unfolding create_stock_item
create_stock_item-IsLinked body user key mid now db db' h done =
    let (inner, _, _) = behind_guard user _ done in
    let (linked, chosen, same) = bind-eq-ok (link_dish db user body key) _ inner in
    subst IsLinked (ok-injective same) (
      with_recipes-IsLinked db _ _ _ db.expenses h (
        All-append (HasDish db.menu_items) db.recipes linked h.recipes
          (link_dish-HasDish db user body key linked chosen)))

set_link-HasDish :
    (menu : List MenuItem) (item dish milli : ℕ) (rs : List RecipeLine)
    → OnMenu menu dish
    → All (HasDish menu) rs
    → All (HasDish menu) (set_link item dish milli rs)
unfolding set_link
set_link-HasDish menu item dish milli rs has h = elim (Bool-cases (leb milli 0)) [
  | inl e ↦
      rw (set_link, e)
        (All-delete (HasDish menu) (HasDish menu) (is_link item dish) rs (λ r k t. k) h)
  | inr e ↦ elim (Bool-cases (is_some (select (is_link item dish) rs))) [
    | inl f ↦
        rw (set_link, e, f)
          (All-update (HasDish menu) (HasDish menu) (is_link item dish) _ rs (λ r k t. k)
            (λ r k t. k) h)
    | inr f ↦ rw (set_link, e, f) (All-append (HasDish menu) rs _ h (has, tt))
  ]
]

set_recipe-IsLinked :
    (key : ℕ) (body : RecipeSet) (user : User) (db db' : Db)
    → IsLinked db
    → set_recipe key body user db ≡ ok db'
    → IsLinked db'
unfolding set_recipe
set_recipe-IsLinked key body user db db' h done =
    let (inner, _, _) = behind_guard user _ done in
    let (item, _, rest) = bind-eq-ok (get_item db user key) _ inner in
    let (dish, found, same) =
      or_raise-eq-ok (select (is_dish body.menu_item_id user.restaurant_id) db.menu_items)
        menu_item_not_found _ rest in
    subst IsLinked (ok-injective same) (
      with_recipes-IsLinked db db.stock_items db.movements _ db.expenses h (
        set_link-HasDish db.menu_items item.id dish.id _ db.recipes
          (dish_row db body.menu_item_id user.restaurant_id dish found) h.recipes))

update_stock_item-IsLinked :
    (key : ℕ) (body : StockItemUpdate) (user : User) (db db' : Db)
    → IsLinked db
    → update_stock_item key body user db ≡ ok db'
    → IsLinked db'
unfolding update_stock_item
update_stock_item-IsLinked key body user db db' h done =
    let (inner, _, _) = behind_guard user _ done in
    let (item, _, same) = bind-eq-ok (get_item db user key) _ inner in
    subst IsLinked (ok-injective same)
      (with_recipes-IsLinked db _ db.movements db.recipes db.expenses h h.recipes)

archive_stock_item-IsLinked :
    (key : ℕ) (user : User) (db db' : Db)
    → IsLinked db
    → archive_stock_item key user db ≡ ok db'
    → IsLinked db'
unfolding archive_stock_item
archive_stock_item-IsLinked key user db db' h done =
    let (inner, _, _) = behind_guard user _ done in
    let (item, _, same) = bind-eq-ok (get_item db user key) _ inner in
    subst IsLinked (ok-injective same)
      (with_recipes-IsLinked db _ db.movements db.recipes db.expenses h h.recipes)

record_movement-IsLinked :
    (key : ℕ) (body : MovementCreate) (user : User) (what : String) (now mid eid : ℕ) (db db' : Db)
    → IsLinked db
    → record_movement key body user what now mid eid db ≡ ok db'
    → IsLinked db'
unfolding commit_movement
record_movement-IsLinked key body user what now mid eid db db' h done =
    let (item, _, _, same) = record_movement-eq-ok key body user what now mid eid db db' done in
    subst IsLinked (sym same) (with_recipes-IsLinked db _ _ db.recipes _ h h.recipes)

pub handle-IsLinked :
    (r : Request) (user : User) (db db' : Db)
    → IsLinked db
    → handle r user db ≡ ok db'
    → IsLinked db'
unfolding handle
handle-IsLinked (place body ref key mid now) user db db' h done =
    create_order-IsLinked body user ref key mid now db db' h done
handle-IsLinked (restatus key text) user db db' h done =
    update_status-IsLinked key text user db db' h done
handle-IsLinked (pay key body now new_id) user db db' h done =
    record_payment-IsLinked key body user now new_id db db' h done
handle-IsLinked (cancel key now mid) user db db' h done =
    cancel_order-IsLinked key user now mid db db' h done
handle-IsLinked (repay key body now) user db db' h done =
    pay_debt-IsLinked key body user now db db' h done
handle-IsLinked (stock body key mid now) user db db' h done =
    create_stock_item-IsLinked body user key mid now db db' h done
handle-IsLinked (edit key body) user db db' h done =
    update_stock_item-IsLinked key body user db db' h done
handle-IsLinked (archive key) user db db' h done =
    archive_stock_item-IsLinked key user db db' h done
handle-IsLinked (move key body what now mid eid) user db db' h done =
    record_movement-IsLinked key body user what now mid eid db db' h done
handle-IsLinked (link key body) user db db' h done = set_recipe-IsLinked key body user db db' h done
handle-IsLinked (on_menu r) user db db' h done = handle_menu-IsLinked r user db db' done h
handle-IsLinked (spend r) user db db' h done =
    subst IsLinked (handle_expense-ExpensesOnly r user db db' done).rest
      (with_recipes-IsLinked db db.stock_items db.movements db.recipes _ h h.recipes)
