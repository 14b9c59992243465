-- ===== src/Shop/Stocking.antt =====
-- The requests that change the shelf (routers/stock.py) leave the books of the orders alone.
use karibu.Prelude.{ℕ, ◌≡◌, refl, String, select}
use mathlib.Core.Path.{subst}
use karibu.Api.{ok, bind-eq-ok, or_raise-eq-ok, ok-injective, menu_item_not_found}
use karibu.Access.{User}
use karibu.Access.Laws.{behind_guard}
use karibu.Db.{Db}
use karibu.Sales.Owed.{IsSound}
use karibu.Stock.Routes.{
  StockItemCreate, StockItemUpdate, MovementCreate, RecipeSet, create_stock_item, update_stock_item,
  archive_stock_item, get_item, link_dish, is_dish,
}
use karibu.Stock.Movements.{record_movement, commit_movement}
use karibu.Stock.Keeps.{record_movement-eq-ok}
use karibu.Stock.Recipes.{set_recipe}

-- The orders and the debts are those of `db`.
pub record SameBooks (db db' : Db) : Type 0 where
  pub orders : db'.orders ≡ db.orders
  pub debts : db'.debts ≡ db.debts

pub SameBooks-IsSound : {db db' : Db} → SameBooks db db' → IsSound db → IsSound db'
SameBooks-IsSound s h = record {
  covered = rw (s.orders, s.debts) h.covered;
  synced = rw s.orders h.synced;
  repaid = rw s.debts h.repaid;
  keys = rw s.debts h.keys;
}

abbrev unchanged : (db : Db) → SameBooks db db
unchanged db = record { orders = refl; debts = refl }

module _ (key : ℕ) (user : User) (db db' : Db) where
  pub create_stock_item-SameBooks :
      (body : StockItemCreate) (mid now : ℕ)
      → create_stock_item body user key mid now db ≡ ok db'
      → SameBooks db db'
  unfolding create_stock_item
  create_stock_item-SameBooks body mid now done =
      let (inner, _, _) = behind_guard user _ done in
      let (linked, _, same) = bind-eq-ok (link_dish db user body key) _ inner in
      subst (SameBooks db) (ok-injective same) (record { orders = refl; debts = refl })

  pub update_stock_item-SameBooks :
      (body : StockItemUpdate) → update_stock_item key body user db ≡ ok db' → SameBooks db db'
  unfolding update_stock_item
  update_stock_item-SameBooks body done =
      let (inner, _, _) = behind_guard user _ done in
      let (item, _, same) = bind-eq-ok (get_item db user key) _ inner in
      subst (SameBooks db) (ok-injective same) (record { orders = refl; debts = refl })

  pub archive_stock_item-SameBooks : archive_stock_item key user db ≡ ok db' → SameBooks db db'
  unfolding archive_stock_item
  archive_stock_item-SameBooks done =
      let (inner, _, _) = behind_guard user _ done in
      let (item, _, same) = bind-eq-ok (get_item db user key) _ inner in
      subst (SameBooks db) (ok-injective same) (record { orders = refl; debts = refl })

  pub record_movement-SameBooks :
      (body : MovementCreate) (what : String) (now mid eid : ℕ)
      → record_movement key body user what now mid eid db ≡ ok db'
      → SameBooks db db'
  unfolding commit_movement
  record_movement-SameBooks body what now mid eid done =
      let (item, _, _, same) = record_movement-eq-ok key body user what now mid eid db db' done in
      rw same (record { orders = refl; debts = refl })

  pub set_recipe-SameBooks :
      (body : RecipeSet) → set_recipe key body user db ≡ ok db' → SameBooks db db'
  unfolding set_recipe
  set_recipe-SameBooks body done =
      let (inner, _, _) = behind_guard user _ done in
      let (item, _, rest) = bind-eq-ok (get_item db user key) _ inner in
      let (dish, _, same) =
        or_raise-eq-ok (select (is_dish body.menu_item_id user.restaurant_id) db.menu_items)
          menu_item_not_found _ rest in
      subst (SameBooks db) (ok-injective same) (record { orders = refl; debts = refl })
