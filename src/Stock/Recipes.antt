-- ===== src/Stock/Recipes.antt =====
-- routers/stock.py: `set_recipe`, which links an ingredient to a dish or clears the link.
use karibu.Prelude.{
  ℕ, Bool, ◌&&◌, none, some, List, [], ◌∷◌, ◌++◌, ◌==◌, leb, if◌then◌else◌, select, update, delete,
  round_half_even, is_some,
}
use karibu.Api.{Result, ok, ◌>>=◌, or_raise, menu_item_not_found}
use karibu.Access.{User, require_roles, managers}
use karibu.Stock.{RecipeLine}
use karibu.Stock.Routes.{RecipeSet, get_item, is_dish, per_portion}
use karibu.Db.{Db}

-- what one sale takes, in thousandths, from the yield or from the direct figure
unfoldable pub recipe_milli : RecipeSet → ℕ
unfolding per_portion round_half_even
recipe_milli body = elim body.portions_per_unit [
  | none ↦ (elim body.quantity [ none ↦ 0 | some q ↦ round_half_even q 1000 ])
  | some portions ↦ per_portion portions
]

abbrev pub is_link : ℕ → ℕ → RecipeLine → Bool
is_link item dish r = r.stock_item_id == item && r.menu_item_id == dish

-- The recipes after one ingredient of one dish is set to `milli`.
unfoldable pub set_link : ℕ → ℕ → ℕ → List RecipeLine → List RecipeLine
set_link item dish milli rs =
    if leb milli 0
    then delete (is_link item dish) rs
    else if is_some (select (is_link item dish) rs)
    then update (is_link item dish) (λ (r : RecipeLine). record r { quantity_milli = milli }) rs
    else rs ++ record { menu_item_id = dish; stock_item_id = item; quantity_milli = milli } ∷ []

-- `set_recipe`
unfoldable pub set_recipe : ℕ → RecipeSet → User → Db → Result Db
set_recipe key body user db = do
  caller ← require_roles managers user
  item ← get_item db caller key
  dish ←
      or_raise (select (is_dish body.menu_item_id caller.restaurant_id) db.menu_items)
        menu_item_not_found
  ok (record db { recipes = set_link item.id dish.id (recipe_milli body) db.recipes })
