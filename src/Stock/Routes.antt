-- ===== src/Stock/Routes.antt =====
-- routers/stock.py: the handlers that read and change the shelf, and schemas/stock.py. Texts that
-- the code formats from floats are arguments; the keys of new rows are arguments too.
use karibu.Prelude.{
  ℕ, String, Bool, true, false, ◌&&◌, Option, none, some, List, [], ◌∷◌, ◌++◌, ◌==◌, if◌then◌else◌,
  select, update, strip, strip_or_none, Decimal, to_cents, to_milli, round_half_even,
}
use karibu.Prelude.Int.{ℤ, pos, pos_part, leb_ℤ}
use karibu.Api.{
  Result, ok, ◌>>=◌, ◌>>◌, raise_if, or_raise, stock_item_not_found, menu_item_not_found,
}
use karibu.Access.{User, require_roles, managers}
use karibu.Stock.{StockItem, StockMovement, MovementReason, RecipeLine, MenuItem}
use karibu.Db.{Db, is_item}

-- `StockItemCreate`, after its validators
pub record StockItemCreate : Type 0 where
  pub name : String
  pub unit : String
  pub quantity : Decimal
  pub reorder_level : Decimal
  pub unit_cost : Option Decimal
  pub supplier : Option String
  pub note : Option String
  pub menu_item_id : Option ℕ
  pub portions_per_unit : Option Decimal

-- `StockItemUpdate`; it has no quantity
pub record StockItemUpdate : Type 0 where
  pub name : Option String
  pub unit : Option String
  pub reorder_level : Option Decimal
  pub unit_cost : Option Decimal
  pub supplier : Option String
  pub note : Option String

-- `MovementCreate`, after its validators
pub record MovementCreate : Type 0 where
  pub reason : MovementReason
  pub quantity : ℤ
  pub note : Option String
  pub cost : Option Decimal
  pub paid : Bool
  pub supplier : Option String

-- `RecipeSet`; `quantity` is in millionths, as every decimal
pub record RecipeSet : Type 0 where
  pub menu_item_id : ℕ
  pub portions_per_unit : Option Decimal
  pub quantity : Option Decimal

abbrev pub in_restaurant : ℕ → ℕ → StockItem → Bool
in_restaurant key rid i = i.id == key && i.restaurant_id == rid

-- `_get_item`
unfoldable pub get_item : Db → User → ℕ → Result StockItem
get_item db user key = do
  item ←
      or_raise (select (in_restaurant key user.restaurant_id) db.stock_items) stock_item_not_found
  raise_if item.is_archived stock_item_not_found
  ok item

abbrev pub is_dish : ℕ → ℕ → MenuItem → Bool
is_dish key rid m = m.id == key && m.restaurant_id == rid

-- `round(1000 / portions_per_unit)`
unfoldable pub per_portion : Decimal → ℕ
unfolding round_half_even
per_portion portions = round_half_even 1000000000 portions

-- the opening movement of `create_stock_item`
unfoldable pub opening : StockItem → ℕ → ℕ → ℕ → List StockMovement
opening item user_id now new_id =
    if leb_ℤ item.quantity_milli (pos 0) && leb_ℤ (pos 0) item.quantity_milli
    then []
    else record {
      id = new_id;
      stock_item_id = item.id;
      delta_milli = item.quantity_milli;
      reason = MovementReason.count;
      note = some "Opening stock";
      balance_after_milli = item.quantity_milli;
      total_cost_cents = none;
      recorded_by_id = some user_id;
      occurred_at = now;
    }
      ∷ []

-- the recipe that `create_stock_item` links when the yield was given
unfoldable pub link_dish : Db → User → StockItemCreate → ℕ → Result (List RecipeLine)
unfolding per_portion
link_dish db user body key = elim body.menu_item_id [
  | none ↦ ok []
  | some dish_id ↦ (elim body.portions_per_unit [
    | none ↦ ok []
    | some portions ↦ do
      dish ←
          or_raise (select (is_dish dish_id user.restaurant_id) db.menu_items) menu_item_not_found
      ok (
          record {
            menu_item_id = dish.id;
            stock_item_id = key;
            quantity_milli = per_portion portions;
          }
          ∷ [])
  ])
]

unfoldable pub new_item : User → StockItemCreate → ℕ → StockItem
new_item user body key = record {
  id = key;
  restaurant_id = user.restaurant_id;
  name = strip body.name;
  unit = body.unit;
  quantity_milli = to_milli (pos body.quantity);
  reorder_level_milli = pos_part (to_milli (pos body.reorder_level));
  unit_cost_cents = elim body.unit_cost [ none ↦ none | some c ↦ some (to_cents c) ];
  supplier = strip_or_none body.supplier;
  note = strip_or_none body.note;
  is_archived = false;
}

-- `create_stock_item`; `key` and `movement_id` are the ids of the new rows
unfoldable pub create_stock_item : StockItemCreate → User → ℕ → ℕ → ℕ → Db → Result Db
create_stock_item body user key movement_id now db = do
  caller ← require_roles managers user
  linked ← link_dish db caller body key
  ok (record db {
    stock_items = db.stock_items ++ new_item caller body key ∷ [];
    movements = db.movements ++ opening (new_item caller body key) caller.id now movement_id;
    recipes = db.recipes ++ linked;
  })

abbrev given {ℓ} : {A : Type ℓ} → Option A → A → A
given none old = old
given (some a) old = a

unfoldable pub edit_item : StockItemUpdate → StockItem → StockItem
edit_item body i = record i {
  name = elim body.name [ none ↦ i.name | some s ↦ strip s ];
  unit = given body.unit i.unit;
  reorder_level_milli = elim body.reorder_level [
    | none ↦ i.reorder_level_milli
    | some v ↦ pos_part (to_milli (pos v))
  ];
  unit_cost_cents = elim body.unit_cost [ none ↦ i.unit_cost_cents | some c ↦ some (to_cents c) ];
  supplier = elim body.supplier [ none ↦ i.supplier | some s ↦ strip_or_none (some s) ];
  note = elim body.note [ none ↦ i.note | some s ↦ strip_or_none (some s) ];
}

-- `update_stock_item`
unfoldable pub update_stock_item : ℕ → StockItemUpdate → User → Db → Result Db
update_stock_item key body user db = do
  caller ← require_roles managers user
  item ← get_item db caller key
  ok (record db { stock_items = update (is_item item.id) (edit_item body) db.stock_items })

-- `archive_stock_item`
unfoldable pub archive_stock_item : ℕ → User → Db → Result Db
archive_stock_item key user db = do
  caller ← require_roles managers user
  item ← get_item db caller key
  ok (record db {
    stock_items =
        update (is_item item.id) (λ (i : StockItem). record i { is_archived = true })
          db.stock_items;
  })
