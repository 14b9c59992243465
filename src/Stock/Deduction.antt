-- ===== src/Stock/Deduction.antt =====
-- services/stock_deduction.py: ingredients taken off the shelf by an order, and given back.
use Prim.Native.String.{◌++◌ as str_append}
use karibu.Prelude.{
  ℕ, ◌+◌, ◌*◌, String, Bool, false, ◌&&◌, Option, none, some, List, [], ◌∷◌, ◌++◌, ◌==◌,
  if◌then◌else◌, select, select_all, update, not,
}
use karibu.Prelude.Int.{ℤ, pos, negsuc, ◌+ℤ◌, sub_ℕ, pos_part, neg_part}
use karibu.Order.{Order, OrderItem}
use karibu.Stock.{StockItem, MovementReason, RecipeLine}
use karibu.Db.{Db, is_item}

-- A dict from stock item ids to quantities, in the order in which the keys were first set.
abbrev pub Totals : Type 0
Totals = List (ℕ × ℕ)

-- `totals[key] = totals.get(key, 0) + amount`
unfoldable pub add_total : ℕ → ℕ → Totals → Totals
add_total key amount [] = (key, amount) ∷ []
add_total key amount ((k, n) ∷ rest) =
    if k == key then (k, n + amount) ∷ rest else (k, n) ∷ add_total key amount rest

-- `not (r.stock_item is None or r.stock_item.is_archived)`
unfoldable pub is_live : List StockItem → ℕ → Bool
is_live items key = elim (select (is_item key) items) [ none ↦ false | some i ↦ not i.is_archived ]

-- What one recipe line adds for one line of the ticket; `live` tells the items that are tracked.
unfoldable pub add_recipe : (ℕ → Bool) → OrderItem → RecipeLine → Totals → Totals
add_recipe live line r totals =
    if r.menu_item_id == line.menu_item_id && live r.stock_item_id
    then add_total r.stock_item_id (r.quantity_milli * line.quantity) totals
    else totals

-- the inner loop, over the recipe lines of one dish
unfoldable pub add_recipes : (ℕ → Bool) → OrderItem → List RecipeLine → Totals → Totals
add_recipes live line [] totals = totals
add_recipes live line (r ∷ rs) totals = add_recipes live line rs (add_recipe live line r totals)

-- the outer loop, over the lines of the ticket
unfoldable pub add_lines : (ℕ → Bool) → List RecipeLine → List OrderItem → Totals → Totals
add_lines live recipes [] totals = totals
add_lines live recipes (line ∷ rest) totals =
    add_lines live recipes rest (add_recipes live line recipes totals)

-- `_lines_for`: the net quantity of each item that the order consumes, without the zeros
unfoldable pub lines_for : Db → Order → Totals
lines_for db order =
    select_all (λ e. not (e.1 == 0)) (add_lines (is_live db.stock_items) db.recipes order.items [])

-- `sign * milli`
abbrev pub times : ℤ → ℕ → ℤ
times sign milli = sub_ℕ (pos_part sign * milli) (neg_part sign * milli)

-- One round of the loop of `_move`; `ids` are the keys of the new rows.
unfoldable pub move_item : ℤ → String → Option ℕ → ℕ → ℕ → ℕ × ℕ → Db → Db
move_item sign note user_id now new_id (key, milli) db =
    elim (select (is_item key) db.stock_items) [
      | none ↦ db
      | some item ↦
          let balance = item.quantity_milli +ℤ times sign milli in
          record db {
            stock_items =
                update (is_item key) (λ (i : StockItem). record i { quantity_milli = balance })
                  db.stock_items;
            movements =
                db.movements
                ++ record {
                  id = new_id;
                  stock_item_id = key;
                  delta_milli = times sign milli;
                  reason = MovementReason.sale;
                  note = some note;
                  balance_after_milli = balance;
                  total_cost_cents = none;
                  recorded_by_id = user_id;
                  occurred_at = now;
                }
                  ∷ [];
          }
    ]

-- the loop of `_move`; the rows that it adds have the keys `new_id`, `new_id + 1`, …
unfoldable pub move_all : ℤ → String → Option ℕ → ℕ → ℕ → Totals → Db → Db
move_all sign note user_id now new_id [] db = db
move_all sign note user_id now new_id (e ∷ es) db =
    move_all sign note user_id now (new_id + 1) es (move_item sign note user_id now new_id e db)

-- `apply_sale`
unfoldable pub apply_sale : Order → Option ℕ → ℕ → ℕ → Db → Db
apply_sale order user_id now new_id db =
    move_all (negsuc 0) (str_append "Sold · " order.reference) user_id now new_id
      (lines_for db order) db

-- `reverse_sale`
unfoldable pub reverse_sale : Order → Option ℕ → ℕ → ℕ → Db → Db
reverse_sale order user_id now new_id db =
    move_all (pos 1) (str_append "Cancelled · " order.reference) user_id now new_id
      (lines_for db order) db
