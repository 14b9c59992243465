-- ===== src/Stock/OnHand.antt =====
-- How the loop of `_move` (services/stock_deduction.py) changes the quantities on the shelf.
use karibu.Prelude.{
  ℕ, ◌+◌, ◌*◌, String, ◌≡◌, refl, ap, sym, ◌∙◌, inl, inr, Option, none, some, List, [], ◌∷◌, arith,
  ◌==◌, if◌then◌else◌, select, update, Option-cases, Bool-cases, ==_iff,
}
use karibu.Prelude.Int.{ℤ, pos, ◌+ℤ◌, sub_ℕ, pos_part, neg_part, int_laws}
use karibu.Stock.{StockItem}
use karibu.Stock.Deduction.{Totals, times, move_item, move_all}
use karibu.Db.{Db, is_item}

-- The quantity on the shelf of the item `key`, if there is such an item.
abbrev pub on_hand : ℕ → List StockItem → Option ℤ
on_hand key [] = none
on_hand key (i ∷ is) = if i.id == key then some i.quantity_milli else on_hand key is

-- what a dict of totals holds for `key`
abbrev pub total_for : ℕ → Totals → ℕ
total_for key [] = 0
total_for key ((k, n) ∷ rest) = (if k == key then n else 0) + total_for key rest

-- `q + n`, where there is a `q`
abbrev pub shifted : ℤ → Option ℤ → Option ℤ
shifted n none = none
shifted n (some q) = some (q +ℤ n)

pub sub_ℕ_parts : (a b : ℕ) → pos_part (sub_ℕ a b) + b ≡ neg_part (sub_ℕ a b) + a
sub_ℕ_parts a b = ground arith

times-add : (s : ℤ) (a b : ℕ) → times s (a + b) ≡ times s a +ℤ times s b
times-add s a b = omega (
  int_laws,
  sub_ℕ_parts (pos_part s * (a + b)) (neg_part s * (a + b)),
  sub_ℕ_parts (pos_part s * a) (neg_part s * a),
  sub_ℕ_parts (pos_part s * b) (neg_part s * b),
)

-- What one round of `_move` does to the quantities.
pub on_hand-update :
    (key k : ℕ) (q : ℤ) (is : List StockItem)
    → on_hand key (update (is_item k) (λ (i : StockItem). record i { quantity_milli = q }) is) ≡ (
        if k == key
        then (elim (on_hand key is) [ none ↦ none | some _ ↦ some q ])
        else on_hand key is)
on_hand-update key k q [] = ground arith
on_hand-update key k q (i ∷ is) = ground (arith, on_hand-update key k q is)

on_hand-select :
    (key : ℕ) (is : List StockItem) (item : StockItem)
    → select (is_item key) is ≡ some item
    → on_hand key is ≡ some item.quantity_milli
on_hand-select key [] item h = absurd (cc)
on_hand-select key (i ∷ is) item h = ground (arith, on_hand-select key is item)

on_hand-missing :
    (key : ℕ) (is : List StockItem) → select (is_item key) is ≡ none → on_hand key is ≡ none
on_hand-missing key [] h = refl
on_hand-missing key (i ∷ is) h = ground (arith, on_hand-missing key is)

sub_ℕ-same : (a b n : ℕ) → a * 0 ≡ 0 → sub_ℕ (a * 0) (b * 0) ≡ pos 0
sub_ℕ-same a b n h = ground arith

times-zero : (s : ℤ) → times s 0 ≡ pos 0
times-zero s = sub_ℕ-same (pos_part s) (neg_part s) 0 (omega arith)

shifted-zero : (s : ℤ) (o : Option ℤ) → shifted (times s 0) o ≡ o
shifted-zero s none = refl
shifted-zero s (some q) = rw times-zero (ap some (omega int_laws))

shifted-add :
    (s : ℤ) (a b : ℕ) (o : Option ℤ)
    → shifted (times s b) (shifted (times s a) o) ≡ shifted (times s (a + b)) o
shifted-add s a b none = refl
shifted-add s a b (some q) = rw (times-add s a b) (ap some (omega int_laws))

-- An item that is not on the shelf stays away.
unmoved :
    (sign : ℤ) (key : ℕ) (e : ℕ × ℕ) (o : Option ℤ)
    → (e.0 ≡ key → o ≡ none)
    → shifted (times sign (if e.0 == key then e.1 else 0)) o ≡ o
unmoved sign key e o h = elim (Bool-cases (e.0 == key)) [
  | inl same ↦ rw (h ((==_iff e.0 key).0 same))
  | inr other ↦ rw other (shifted-zero sign o)
]

moved :
    (sign : ℤ) (key : ℕ) (e : ℕ × ℕ) (q : ℤ) (o : Option ℤ)
    → (e.0 ≡ key → o ≡ some q)
    → (if e.0 == key then (elim o [ none ↦ none | some _ ↦ some (q +ℤ times sign e.1) ]) else o)
      ≡ shifted (times sign (if e.0 == key then e.1 else 0)) o
moved sign key e q o h = elim (Bool-cases (e.0 == key)) [
  | inl same ↦ rw (same, h ((==_iff e.0 key).0 same))
  | inr other ↦ rw other (sym (shifted-zero sign o))
]

on_hand-move_item :
    (sign : ℤ) (note : String) (user_id : Option ℕ) (now new_id key : ℕ) (e : ℕ × ℕ) (db : Db)
    → on_hand key (move_item sign note user_id now new_id e db).stock_items
      ≡ shifted (times sign (if e.0 == key then e.1 else 0)) (on_hand key db.stock_items)
unfolding move_item
on_hand-move_item sign note user_id now new_id key e db =
    elim (Option-cases (select (is_item e.0) db.stock_items)) [
      | inl missing ↦
          rw (missing, move_item)
            (sym (
              unmoved sign key e (on_hand key db.stock_items)
                (λ same. on_hand-missing key db.stock_items (rw (← same) missing))))
      | inr (item, found) ↦
          rw (found, move_item)
            (on_hand-update key e.0 (item.quantity_milli +ℤ times sign e.1) db.stock_items
              ∙ moved sign key e item.quantity_milli (on_hand key db.stock_items)
                  (λ same. on_hand-select key db.stock_items item (rw (← same) found)))
    ]

pub on_hand-move_all :
    (sign : ℤ) (note : String) (user_id : Option ℕ) (now new_id key : ℕ) (es : Totals) (db : Db)
    → on_hand key (move_all sign note user_id now new_id es db).stock_items
      ≡ shifted (times sign (total_for key es)) (on_hand key db.stock_items)
unfolding move_all
on_hand-move_all sign note user_id now new_id key [] db =
    sym (shifted-zero sign (on_hand key db.stock_items))
on_hand-move_all sign note user_id now new_id key (e ∷ es) db =
    on_hand-move_all sign note user_id now (new_id + 1) key es
      (move_item sign note user_id now new_id e db)
    ∙ ap (shifted (times sign (total_for key es)))
        (on_hand-move_item sign note user_id now new_id key e db)
    ∙ shifted-add sign (if e.0 == key then e.1 else 0) (total_for key es)
        (on_hand key db.stock_items)
