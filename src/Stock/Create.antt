-- ===== src/Stock/Create.antt =====
-- `create_stock_item` (routers/stock.py): the ledger of a new item starts with the item.
use karibu.Prelude.{
  ℕ, ◌≡◌, ◌≢◌, refl, sym, ◌∙◌, List, [], ◌∷◌, ◌++◌, inl, inr, arith, All, All-append, All-zip,
  All-last, to_milli, Bool-cases, ◌&&◌,
}
use mathlib.Core.Path.{subst}
use mathlib.Core.List.{append-nil}
use karibu.Prelude.Int.{pos, leb_ℤ, int_laws}
use karibu.Api.{ok, bind-eq-ok, ok-injective}
use karibu.Access.{User}
use karibu.Access.Laws.{behind_guard}
use karibu.Stock.{StockItem, StockMovement}
use karibu.Stock.Ledger.{
  IsReconciled, Tallies, Balances-snoc, replayed, replayed-snoc, delta_for_self, delta_for-other,
}
use karibu.Stock.Routes.{StockItemCreate, create_stock_item, new_item, opening, link_dish}
use karibu.Db.{Db}

-- A key that no row of the shelf has: what `uuid4` gives.
pub record IsFresh (key : ℕ) (db : Db) : Type 0 where
  pub items : All (λ (i : StockItem). i.id ≢ key) db.stock_items
  pub movements : All (λ (m : StockMovement). m.stock_item_id ≢ key) db.movements

pub replayed-fresh :
    (key : ℕ) (ms : List StockMovement)
    → All (λ (m : StockMovement). m.stock_item_id ≢ key) ms
    → replayed key ms ≡ pos 0
replayed-fresh key [] h = refl
replayed-fresh key (m ∷ ms) h =
    rw (delta_for-other m key (ground (arith, h.0)), replayed-fresh key ms h.1) (omega int_laws)

-- The rows that a new item adds keep the shelf reconciled.
module _ (item : StockItem) (user_id now mid : ℕ) (db : Db) (h : IsReconciled db)
    (fresh : IsFresh item.id db) where
  kept_item :
      (m : StockMovement)
      → m.stock_item_id ≡ item.id
      → (x : StockItem) → Tallies db.movements x
      → x.id ≢ item.id
      → Tallies (db.movements ++ m ∷ []) x
  kept_item m same x t ne =
      rw (replayed-snoc x.id db.movements m, delta_for-other m x.id (ground arith), t)
        (omega int_laws)

  -- a movement of the whole quantity, as the first of the item
  opened_with :
      (m : StockMovement)
      → m.stock_item_id ≡ item.id
      → m.delta_milli ≡ item.quantity_milli
      → m.balance_after_milli ≡ item.quantity_milli
      → IsReconciled (record db {
        stock_items = db.stock_items ++ item ∷ [];
        movements = db.movements ++ m ∷ [];
      })
  opened_with m same delta balance = record {
    tallies =
        All-append (Tallies (db.movements ++ m ∷ [])) db.stock_items (item ∷ [])
          (All-zip (Tallies db.movements) (λ (x : StockItem). x.id ≢ item.id) _ db.stock_items
            (kept_item m same) h.tallies fresh.items)
          (
            rw
                (
                  replayed-snoc item.id db.movements m,
                  ← same,
                  delta_for_self m,
                  rw (← same) at (replayed-fresh item.id db.movements fresh.movements),
                  delta,
                )
                (omega int_laws),
            tt,
          );
    balances = Balances-snoc [] db.movements m h.balances (
        rw (same, replayed-fresh item.id db.movements fresh.movements, delta, balance)
          (omega int_laws));
  }

  opened_empty :
      item.quantity_milli ≡ pos 0
      → IsReconciled
          (record db { stock_items = db.stock_items ++ item ∷ []; movements = db.movements ++ [] })
  opened_empty none_yet = record {
    tallies = rw append-nil (
        All-append (Tallies db.movements) db.stock_items (item ∷ []) h.tallies
          (none_yet ∙ sym (replayed-fresh item.id db.movements fresh.movements), tt));
    balances = rw append-nil h.balances;
  }

  opened : IsReconciled (record db {
    stock_items = db.stock_items ++ item ∷ [];
    movements = db.movements ++ opening item user_id now mid;
  })
  unfolding opening
  opened =
      elim (Bool-cases (leb_ℤ item.quantity_milli (pos 0) && leb_ℤ (pos 0) item.quantity_milli)) [
        | inl zero_stock ↦ rw (zero_stock, opening) (opened_empty (ground arith))
        | inr some_stock ↦ rw (some_stock, opening) (opened_with _ refl refl refl)
      ]

-- Creating a stock item under a fresh key keeps the ledger reconciled, and the replay of the new
-- item is its opening quantity.
pub create_stock_item-IsReconciled :
    (body : StockItemCreate) (user : User) (key mid now : ℕ) (db db' : Db)
    → IsReconciled db
    → IsFresh key db
    → create_stock_item body user key mid now db ≡ ok db'
    → IsReconciled db' × (replayed key db'.movements ≡ to_milli (pos body.quantity))
unfolding create_stock_item new_item
create_stock_item-IsReconciled body user key mid now db db' h fresh done =
    let (inner, _, _) = behind_guard user _ done in
    let (linked, _, rest) = bind-eq-ok (link_dish db user body key) _ inner in
    let item = new_item user body key in
    let kept = opened item user.id now mid db h fresh in
    subst (λ (d : Db). IsReconciled d × (replayed key d.movements ≡ to_milli (pos body.quantity)))
      (ok-injective rest)
      (
        record { tallies = kept.tallies; balances = kept.balances },
        sym (All-last _ db.stock_items item kept.tallies),
      )
