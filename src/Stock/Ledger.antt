-- ===== src/Stock/Ledger.antt =====
-- The ledger of movements (models/stock.py): a shelf is reconciled when replaying the movements
-- reproduces every quantity and every recorded balance.
use mathlib.Core.List.{append-nil, append_assoc}
use karibu.Prelude.{
  ℕ, ◌≡◌, ap, ◌∙◌, true, false, some, List, [], ◌∷◌, ◌++◌, arith, ◌==◌, if◌then◌else◌, All,
  All-select, All-update, select, update, select-test, sum_ℤ, sum_ℤ-append, ==_iff,
}
use karibu.Prelude.Int.{ℤ, pos, ◌+ℤ◌, int_laws}
use karibu.Stock.{StockItem, StockMovement}
use karibu.Db.{Db, is_item}

-- what a movement does to the item `key`
abbrev pub delta_for : ℕ → StockMovement → ℤ
delta_for key m = if m.stock_item_id == key then m.delta_milli else pos 0

-- the replay of the ledger, for one item
abbrev pub replayed : ℕ → List StockMovement → ℤ
replayed key = sum_ℤ (delta_for key)

abbrev pub Tallies : List StockMovement → StockItem → Type 0
Tallies ms i = i.quantity_milli ≡ replayed i.id ms

-- Every movement of `later` recorded the balance that the replay up to it has, after `before`.
abbrev pub Balances : List StockMovement → List StockMovement → Type 0
Balances before [] = Unit
Balances before (m ∷ later) =
    (m.balance_after_milli ≡ replayed m.stock_item_id before +ℤ m.delta_milli)
    × Balances (before ++ m ∷ []) later

pub record IsReconciled (db : Db) : Type 0 where
  pub tallies : All (Tallies db.movements) db.stock_items
  pub balances : Balances [] db.movements

pub replayed-snoc :
    (key : ℕ) (ms : List StockMovement) (m : StockMovement)
    → replayed key (ms ++ m ∷ []) ≡ replayed key ms +ℤ delta_for key m
replayed-snoc key ms m = rw (sum_ℤ-append (delta_for key) ms (m ∷ [])) (omega int_laws)

append-snoc :
    (xs : List StockMovement) (m : StockMovement) (ys : List StockMovement)
    → (xs ++ m ∷ []) ++ ys ≡ xs ++ (m ∷ ys)
append-snoc xs m ys = append_assoc xs (m ∷ []) ys

pub Balances-snoc :
    (before later : List StockMovement) (m : StockMovement)
    → Balances before later
    → m.balance_after_milli ≡ replayed m.stock_item_id (before ++ later) +ℤ m.delta_milli
    → Balances before (later ++ m ∷ [])
Balances-snoc before [] m h e = (rw append-nil at e, tt)
Balances-snoc before (x ∷ later) m h e =
    (h.0, Balances-snoc (before ++ x ∷ []) later m h.1 (rw (append-snoc before x later) e))

pub delta_for_self : (m : StockMovement) → delta_for m.stock_item_id m ≡ m.delta_milli
delta_for_self m = ground arith

pub delta_for-other :
    (m : StockMovement) (key : ℕ) → (key == m.stock_item_id) ≡ false → delta_for key m ≡ pos 0
delta_for-other m key e = ground arith

-- The ledger knows the quantity of an item that was found by its id.
pub quantity_replayed :
    (db : Db) (key : ℕ) (item : StockItem)
    → IsReconciled db
    → select (is_item key) db.stock_items ≡ some item
    → item.quantity_milli ≡ replayed key db.movements
quantity_replayed db key item h found =
    All-select (Tallies db.movements) (is_item key) db.stock_items item h.tallies found
    ∙ ap (λ k. replayed k db.movements)
        ((==_iff item.id key).0 (select-test (is_item key) db.stock_items item found))

-- A movement that records the new balance of its item keeps the shelf reconciled.
module _ (db : Db) (m : StockMovement) (h : IsReconciled db)
    (e : m.balance_after_milli ≡ replayed m.stock_item_id db.movements +ℤ m.delta_milli) where
  moved_item :
      (x : StockItem)
      → is_item m.stock_item_id x ≡ true
      → m.balance_after_milli ≡ replayed x.id (db.movements ++ m ∷ [])
  moved_item x p =
      rw
        (
          (==_iff x.id m.stock_item_id).0 p,
          replayed-snoc m.stock_item_id db.movements m,
          delta_for_self m,
        )
        e

  other_item :
      (x : StockItem)
      → Tallies db.movements x
      → is_item m.stock_item_id x ≡ false
      → Tallies (db.movements ++ m ∷ []) x
  other_item x t p =
      rw (replayed-snoc x.id db.movements m, delta_for-other m x.id p, t) (omega int_laws)

  pub record_keeps : IsReconciled (record db {
    stock_items =
        update
          (is_item m.stock_item_id)
          (λ (i : StockItem). record i { quantity_milli = m.balance_after_milli })
          db.stock_items;
    movements = db.movements ++ m ∷ [];
  })
  record_keeps = record {
    tallies =
        All-update (Tallies db.movements) (Tallies (db.movements ++ m ∷ []))
          (is_item m.stock_item_id) _ db.stock_items (λ x t p. moved_item x p) other_item h.tallies;
    balances = Balances-snoc [] db.movements m h.balances e;
  }
