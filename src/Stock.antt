-- ===== src/Stock.antt =====
-- models/stock.py, models/recipe.py and models/menu.py: stock items, the ledger of movements, what
-- a dish consumes, and the dishes. Quantities are integer thousandths of a unit, and signed.
pub mod Deduction
pub mod Ledger
pub mod Routes
pub mod Movements
pub mod Recipes
pub mod Consumption
pub mod Keeps
pub mod OnHand
pub mod Restore
pub mod Create
pub mod Effects
use karibu.Prelude.{
  ℕ, ◌*◌, String, Bool, true, false, ◌&&◌, Option, none, some, ltb, str_eq, if◌then◌else◌,
  round_half_even,
}
use karibu.Prelude.Int.{ℤ, pos, negsuc, neg, neg_part, leb_ℤ}

pub data MovementReason : Type 0 where
  received used waste count returned sale : MovementReason

-- A reason that a person may give, as a request spells it: `MovementReason.MANUAL`.
unfoldable pub known_reason : String → Option MovementReason
known_reason s =
    if str_eq s "received"
    then some MovementReason.received
    else if str_eq s "used"
    then some MovementReason.used
    else if str_eq s "waste"
    then some MovementReason.waste
    else if str_eq s "count"
    then some MovementReason.count
    else if str_eq s "returned"
    then some MovementReason.returned
    else none

-- `reason in MovementReason.OUTGOING`
unfoldable pub is_outgoing : MovementReason → Bool
is_outgoing MovementReason.used = true
is_outgoing MovementReason.waste = true
is_outgoing MovementReason.returned = true
is_outgoing MovementReason.sale = true
is_outgoing _ = false

pub record StockItem : Type 0 where
  pub id : ℕ
  pub restaurant_id : ℕ
  pub name : String
  pub unit : String
  pub quantity_milli : ℤ
  pub reorder_level_milli : ℕ
  pub unit_cost_cents : Option ℕ
  pub supplier : Option String
  pub note : Option String
  pub is_archived : Bool

pub record StockMovement : Type 0 where
  pub id : ℕ
  pub stock_item_id : ℕ
  pub delta_milli : ℤ
  pub reason : MovementReason
  pub note : Option String
  pub balance_after_milli : ℤ
  pub total_cost_cents : Option ℕ
  pub recorded_by_id : Option ℕ
  pub occurred_at : ℕ

pub record RecipeLine : Type 0 where
  pub menu_item_id : ℕ
  pub stock_item_id : ℕ
  pub quantity_milli : ℕ

pub record Category : Type 0 where
  pub id : ℕ
  pub restaurant_id : ℕ
  pub name : String
  pub icon : String
  pub sort_order : ℤ

pub record MenuItem : Type 0 where
  pub id : ℕ
  pub restaurant_id : ℕ
  pub name : String
  pub description : Option String
  pub price_cents : ℕ
  pub image_url : Option String
  pub prep_minutes : ℤ
  pub category_id : ℕ
  pub is_available : Bool
  pub is_archived : Bool

-- `StockItem.is_low`
unfoldable pub is_low : StockItem → Bool
is_low i = ltb 0 i.reorder_level_milli && leb_ℤ i.quantity_milli (pos i.reorder_level_milli)

-- `round(quantity_milli * cost / 1000)`
abbrev value_at : ℕ → ℤ → ℤ
value_at cost (pos n) = pos (round_half_even (n * cost) 1000)
value_at cost (negsuc n) = neg (pos (round_half_even (neg_part (negsuc n) * cost) 1000))

-- `StockItem.value_cents`
unfoldable pub value_cents : StockItem → Option ℤ
unfolding round_half_even
value_cents i = elim i.unit_cost_cents [
  | none ↦ none
  | some cost ↦ some (value_at cost i.quantity_milli)
]
