-- ===== src/Examples/Shelf.antt =====
-- Examples of the theorems about the shelf (routers/stock.py, services/stock_deduction.py).
use karibu.Prelude.{
  ℕ, ◌+◌, ◌≡◌, ◌≢◌, ◌↔◌, ◌∷◌, ◌==◌, refl, inr, true, false, none, some, [], arith, if◌then◌else◌,
  to_cents, to_milli,
}
use karibu.Prelude.Int.{pos, negsuc, ◌+ℤ◌, ◌≤ℤ◌}
use karibu.Api.{after}
use karibu.Access.{UserRole, require_roles}
use karibu.Stock.{MovementReason}
use karibu.Stock.Routes.{StockItemCreate, MovementCreate, RecipeSet, get_item}
use karibu.Stock.Movements.{record_movement}
use karibu.Stock.Deduction.{apply_sale, reverse_sale, times}
use karibu.Stock.Ledger.{IsReconciled}
use karibu.Stock.OnHand.{on_hand, shifted}
use karibu.Stock.Restore.{required, on_hand-apply_sale, on_hand-reverse_sale-apply_sale}
use karibu.Stock.Effects.{record_movement_effect}
use karibu.Stock.Recipes.{set_recipe}
use karibu.Stock.Consumption.{HasOneLink, apply_sale-set_recipe}
use karibu.Examples.{boss, leaves, ticket, cafe}

cafe-IsReconciled : IsReconciled cafe
unfolding ◌+ℤ◌
cafe-IsReconciled = record { tallies = (refl, tt); balances = (refl, tt) }

-- half a kilogram delivered on credit for 200 shillings
abbrev half_kilo : MovementCreate
half_kilo = record {
  reason = MovementReason.received;
  quantity = pos 500000;
  note = none;
  cost = some 200000000;
  paid = false;
  supplier = none;
}

-- two kilograms used
abbrev two_kilos : MovementCreate
two_kilos = record {
  reason = MovementReason.used;
  quantity = negsuc 1999999;
  note = none;
  cost = none;
  paid = true;
  supplier = none;
}

abbrev milk : StockItemCreate
milk = record {
  name = " Milk ";
  unit = "l";
  quantity = 12500000;
  reorder_level = 2000000;
  unit_cost = none;
  supplier = none;
  note = none;
  menu_item_id = some 1;
  portions_per_unit = some 4000000;
}

on_hand-apply_sale_example :
    on_hand 1 (apply_sale (ticket 3) none 40 2 cafe).stock_items
    ≡ shifted (times (negsuc 0) (required 1 cafe.recipes (ticket 3).items)) (some (pos 1000))
unfolding karibu.Stock.Deduction.is_live
on_hand-apply_sale_example = on_hand-apply_sale (ticket 3) none 40 2 1 cafe refl

on_hand-reverse_sale-apply_sale_example :
    on_hand 1
      (reverse_sale (ticket 3) (some 1) 50 3 (apply_sale (ticket 3) none 40 2 cafe)).stock_items
    ≡ some (pos 1000)
on_hand-reverse_sale-apply_sale_example =
    on_hand-reverse_sale-apply_sale (ticket 3) none (some 1) 40 50 2 3 1 cafe

record_movement_effect_example :
    (UserRole.manager ≡ UserRole.manager)
    × (pos 0 ≤ℤ pos 1000 +ℤ to_milli (pos 500000))
    × (on_hand 1
          (after (record_movement 1 half_kilo boss "0.5 kg Tea leaves" 60 2 1) cafe).stock_items
        ≡ (if 1 == 1 then some (pos 1000 +ℤ to_milli (pos 500000)) else on_hand 1 cafe.stock_items))
unfolding record_movement require_roles get_item ◌+ℤ◌ karibu.Prelude.round_half_even
record_movement_effect_example =
    record_movement_effect 1 half_kilo boss "0.5 kg Tea leaves" 60 2 1 cafe _ leaves 1 refl refl

-- fifty pots from a kilogram, and a ticket with two
abbrev fifty_pots : RecipeSet
fifty_pots = record { menu_item_id = 1; portions_per_unit = some 50000000; quantity = none }

apply_sale-set_recipe_example :
    (on_hand 1
        (apply_sale (ticket 3) none 40 2 (after (set_recipe 1 fifty_pots boss) cafe)).stock_items
      ≡ some (pos 960))
    × HasOneLink (after (set_recipe 1 fifty_pots boss) cafe).recipes
unfolding set_recipe require_roles get_item karibu.Stock.Recipes.recipe_milli
    karibu.Prelude.round_half_even karibu.Stock.Deduction.is_live ◌+ℤ◌
apply_sale-set_recipe_example =
    apply_sale-set_recipe 1 fifty_pots boss (ticket 3) none 40 2 1 cafe _ (tt, tt) refl refl
