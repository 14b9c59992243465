-- ===== src/Stock/Restore.antt =====
-- What `apply_sale` takes off the shelf, and that `reverse_sale` puts it back
-- (services/stock_deduction.py).
use mathlib.Core.Path.{fun_ext}
use karibu.Prelude.{
  ℕ, ◌+◌, ◌*◌, String, ◌≡◌, refl, ap, ◌∙◌, Bool, true, ◌&&◌, not, inl, inr, Option, none, some,
  List, [], ◌∷◌, arith, ◌==◌, if◌then◌else◌, select, select_all, update, sum_of, Option-cases,
}
use karibu.Prelude.Int.{ℤ, pos, negsuc, ◌+ℤ◌, int_laws}
use karibu.Order.{Order, OrderItem}
use karibu.Stock.{StockItem, RecipeLine}
use karibu.Stock.Deduction.{
  Totals, add_total, is_live, add_recipe, add_recipes, add_lines, lines_for, times, move_item,
  move_all, apply_sale, reverse_sale,
}
use karibu.Stock.OnHand.{on_hand, total_for, shifted, on_hand-move_all, sub_ℕ_parts}
use karibu.Db.{Db, is_item}

-- The double sum that a ticket needs of the item `key`: no dict, no order of visits.
abbrev pub need_of : ℕ → OrderItem → RecipeLine → ℕ
need_of key line r =
    if r.menu_item_id == line.menu_item_id && r.stock_item_id == key
    then r.quantity_milli * line.quantity
    else 0

abbrev pub required : ℕ → List RecipeLine → List OrderItem → ℕ
required key recipes = sum_of (λ (line : OrderItem). sum_of (need_of key line) recipes)

total_for-add_total :
    (key k n : ℕ) (totals : Totals)
    → total_for key (add_total k n totals) ≡ total_for key totals + (if k == key then n else 0)
unfolding add_total
total_for-add_total key k n [] = ground arith
total_for-add_total key k n (e ∷ totals) = ground (arith, total_for-add_total key k n totals)

total_for-add_recipe :
    (live : ℕ → Bool) (key : ℕ) (line : OrderItem) (r : RecipeLine) (totals : Totals)
    → live key ≡ true
    → total_for key (add_recipe live line r totals) ≡ total_for key totals + need_of key line r
unfolding add_recipe
total_for-add_recipe live key line r totals alive =
    ground
      (arith, total_for-add_total key r.stock_item_id (r.quantity_milli * line.quantity) totals)

total_for-add_recipes :
    (live : ℕ → Bool) (key : ℕ) (line : OrderItem) (rs : List RecipeLine) (totals : Totals)
    → live key ≡ true
    → total_for key (add_recipes live line rs totals)
      ≡ total_for key totals + sum_of (need_of key line) rs
unfolding add_recipes
total_for-add_recipes live key line [] totals alive = omega arith
total_for-add_recipes live key line (r ∷ rs) totals alive = omega (
  arith,
  total_for-add_recipes live key line rs (add_recipe live line r totals) alive,
  total_for-add_recipe live key line r totals alive,
)

total_for-add_lines :
    (live : ℕ → Bool) (key : ℕ) (recipes : List RecipeLine) (lines : List OrderItem)
    (totals : Totals)
    → live key ≡ true
    → total_for key (add_lines live recipes lines totals)
      ≡ total_for key totals + required key recipes lines
unfolding add_lines
total_for-add_lines live key recipes [] totals alive = omega arith
total_for-add_lines live key recipes (line ∷ lines) totals alive = omega (
  arith,
  total_for-add_lines live key recipes lines (add_recipes live line recipes totals) alive,
  total_for-add_recipes live key line recipes totals alive,
)

-- The zeros that `_lines_for` leaves out change no total.
total_for-nonzero :
    (key : ℕ) (totals : Totals)
    → total_for key (select_all (λ e. not (e.1 == 0)) totals) ≡ total_for key totals
total_for-nonzero key [] = refl
total_for-nonzero key ((k, n) ∷ totals) = ground (arith, total_for-nonzero key totals)

-- The net quantity of a live item is the double sum over the ticket and the recipes.
pub total_for-lines_for :
    (key : ℕ) (db : Db) (order : Order)
    → is_live db.stock_items key ≡ true
    → total_for key (lines_for db order) ≡ required key db.recipes order.items
unfolding lines_for
total_for-lines_for key db order alive = omega (
  arith,
  total_for-nonzero key (add_lines (is_live db.stock_items) db.recipes order.items []),
  total_for-add_lines (is_live db.stock_items) key db.recipes order.items [] alive,
)

-- The liveness of an item depends on no quantity.
is_live-update :
    (key k : ℕ) (q : ℤ) (is : List StockItem)
    → is_live (update (is_item k) (λ (i : StockItem). record i { quantity_milli = q }) is) key
      ≡ is_live is key
unfolding is_live
is_live-update key k q [] = refl
is_live-update key k q (i ∷ is) = ground (arith, is_live-update key k q is)

is_live-move_item :
    (sign : ℤ) (note : String) (user_id : Option ℕ) (now new_id key : ℕ) (e : ℕ × ℕ) (db : Db)
    → is_live (move_item sign note user_id now new_id e db).stock_items key
      ≡ is_live db.stock_items key
unfolding move_item
is_live-move_item sign note user_id now new_id key e db =
    elim (Option-cases (select (is_item e.0) db.stock_items)) [
      | inl missing ↦ rw (missing, move_item)
      | inr (item, found) ↦
          rw (found, move_item)
            (is_live-update key e.0 (item.quantity_milli +ℤ times sign e.1) db.stock_items)
    ]

pub is_live-move_all :
    (sign : ℤ) (note : String) (user_id : Option ℕ) (now new_id key : ℕ) (es : Totals) (db : Db)
    → is_live (move_all sign note user_id now new_id es db).stock_items key
      ≡ is_live db.stock_items key
unfolding move_all
is_live-move_all sign note user_id now new_id key [] db = refl
is_live-move_all sign note user_id now new_id key (e ∷ es) db =
    is_live-move_all sign note user_id now (new_id + 1) key es
      (move_item sign note user_id now new_id e db)
    ∙ is_live-move_item sign note user_id now new_id key e db

recipes-move_item :
    (sign : ℤ) (note : String) (user_id : Option ℕ) (now new_id : ℕ) (e : ℕ × ℕ) (db : Db)
    → (move_item sign note user_id now new_id e db).recipes ≡ db.recipes
unfolding move_item
recipes-move_item sign note user_id now new_id e db = ground arith

recipes-move_all :
    (sign : ℤ) (note : String) (user_id : Option ℕ) (now new_id : ℕ) (es : Totals) (db : Db)
    → (move_all sign note user_id now new_id es db).recipes ≡ db.recipes
unfolding move_all
recipes-move_all sign note user_id now new_id [] db = refl
recipes-move_all sign note user_id now new_id (e ∷ es) db =
    recipes-move_all sign note user_id now (new_id + 1) es
      (move_item sign note user_id now new_id e db)
    ∙ recipes-move_item sign note user_id now new_id e db

-- A sale changes neither what the ticket nets to nor which items are tracked.
lines_for-move_all :
    (sign : ℤ) (note : String) (user_id : Option ℕ) (now new_id : ℕ) (es : Totals) (db : Db)
    (order : Order)
    → lines_for (move_all sign note user_id now new_id es db) order ≡ lines_for db order
unfolding lines_for
lines_for-move_all sign note user_id now new_id es db order = rw (
  fun_ext (λ key. is_live-move_all sign note user_id now new_id key es db),
  recipes-move_all sign note user_id now new_id es db,
)

-- Placing an order takes off each tracked item the double sum, over the lines of the ticket and
-- the recipe lines, of the quantity of the recipe times the quantity of the line.
pub on_hand-apply_sale :
    (order : Order) (user_id : Option ℕ) (now new_id key : ℕ) (db : Db)
    → is_live db.stock_items key ≡ true
    → on_hand key (apply_sale order user_id now new_id db).stock_items
      ≡ shifted
          (times (negsuc 0) (required key db.recipes order.items))
          (on_hand key db.stock_items)
unfolding apply_sale
on_hand-apply_sale order user_id now new_id key db alive =
    on_hand-move_all (negsuc 0) _ user_id now new_id key (lines_for db order) db
    ∙ ap (λ n. shifted (times (negsuc 0) n) (on_hand key db.stock_items))
        (total_for-lines_for key db order alive)

cancelling : (n : ℕ) (o : Option ℤ) → shifted (times (pos 1) n) (shifted (times (negsuc 0) n) o) ≡ o
cancelling n none = refl
cancelling n (some q) =
    ap some (omega (int_laws, sub_ℕ_parts (1 * n) (0 * n), sub_ℕ_parts (0 * n) (1 * n)))

-- Giving back what a sale took leaves every quantity as it was before the sale.
pub on_hand-reverse_sale-apply_sale :
    (order : Order) (taker giver : Option ℕ) (now later new_id next_id key : ℕ) (db : Db)
    → on_hand key
        (reverse_sale order giver later next_id (apply_sale order taker now new_id db)).stock_items
      ≡ on_hand key db.stock_items
unfolding apply_sale reverse_sale
on_hand-reverse_sale-apply_sale order taker giver now later new_id next_id key db =
    let sold = move_all (negsuc 0) _ taker now new_id (lines_for db order) db in
    on_hand-move_all (pos 1) _ giver later next_id key (lines_for sold order) sold
    ∙ ap (λ es. shifted (times (pos 1) (total_for key es)) (on_hand key sold.stock_items))
        (lines_for-move_all (negsuc 0) _ taker now new_id (lines_for db order) db order)
    ∙ ap (shifted (times (pos 1) (total_for key (lines_for db order))))
        (on_hand-move_all (negsuc 0) _ taker now new_id key (lines_for db order) db)
    ∙ cancelling (total_for key (lines_for db order)) (on_hand key db.stock_items)
