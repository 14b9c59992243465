-- ===== src/Prelude/Sorting.antt =====
-- `ORDER BY`, `LIMIT`, and a range of numbers.
use karibu.Prelude.Tests.{leb, if◌then◌else◌, Bool-cases}
use karibu.Prelude.Sums.{sum_of}
use Prim.Native.Nat.{ℕ, zero, suc, ◌+◌}
use mathlib.Core.Path.{◌≡◌, refl}
use mathlib.Core.Logic.{inl, inr}
use mathlib.Core.Bool.{Bool}
use mathlib.Core.List.{List, [], ◌∷◌}
use native.Mathlib.Omega.{arith}

module _ {ℓ} {A : Type ℓ} where
  -- `x` before the first row that it may precede
  abbrev pub insert_by : (A → A → Bool) → A → List A → List A
  insert_by precedes x [] = x ∷ []
  insert_by precedes x (y ∷ ys) =
      let rest = insert_by precedes x ys in if precedes x y then x ∷ y ∷ ys else y ∷ rest

  abbrev pub order_by : (A → A → Bool) → List A → List A
  order_by precedes [] = []
  order_by precedes (x ∷ xs) = insert_by precedes x (order_by precedes xs)

  -- by an amount, the largest first; stable, as `sorted(…, reverse=True)` is
  abbrev pub order_desc : (A → ℕ) → List A → List A
  order_desc amount = order_by (λ x y. leb (amount y) (amount x))

  abbrev pub take : ℕ → List A → List A
  take zero xs = []
  take (suc n) [] = []
  take (suc n) (x ∷ xs) = x ∷ take n xs

  sum_of-insert_by :
      (f : A → ℕ) (precedes : A → A → Bool) (x : A) (xs : List A)
      → sum_of f (insert_by precedes x xs) ≡ f x + sum_of f xs
  sum_of-insert_by f precedes x [] = refl
  sum_of-insert_by f precedes x (y ∷ ys) = elim (Bool-cases (precedes x y)) [
    | inl first ↦ rw first refl
    | inr later ↦ rw later (omega (arith, sum_of-insert_by f precedes x ys))
  ]

  pub sum_of-order_by :
      (f : A → ℕ) (precedes : A → A → Bool) (xs : List A)
      → sum_of f (order_by precedes xs) ≡ sum_of f xs
  sum_of-order_by f precedes [] = refl
  sum_of-order_by f precedes (x ∷ xs) =
      omega
        (arith, sum_of-insert_by f precedes x (order_by precedes xs), sum_of-order_by f precedes xs)

-- `range(first, first + n)`
abbrev pub count_from : ℕ → ℕ → List ℕ
count_from first zero = []
count_from first (suc n) = first ∷ count_from (first + 1) n
