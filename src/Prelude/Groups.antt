-- ===== src/Prelude/Groups.antt =====
-- Sums by key: what `GROUP BY` with `SUM` gives, and a dict that a loop adds to.
use karibu.Prelude.Tests.{if◌then◌else◌, ◌==◌, Bool-cases}
use karibu.Prelude.Sums.{sum_of}
use Prim.Native.Nat.{ℕ, ◌+◌}
use mathlib.Core.Path.{◌≡◌}
use mathlib.Core.Logic.{inl, inr}
use mathlib.Core.Bool.{Bool}
use mathlib.Core.List.{List, [], ◌∷◌}
use native.Mathlib.Omega.{arith}

module _ {ℓ} {K : Type ℓ} where
  -- `d[k] = d.get(k, 0) + n`
  abbrev pub add_to : (K → K → Bool) → K → ℕ → List (K × ℕ) → List (K × ℕ)
  add_to same k n [] = (k, n) ∷ []
  add_to same k n ((j, m) ∷ d) =
      let rest = add_to same k n d in if same j k then (j, m + n) ∷ d else (j, m) ∷ rest

  -- `d.get(k, 0)`
  abbrev pub get_or_0 : (K → K → Bool) → K → List (K × ℕ) → ℕ
  get_or_0 same k [] = 0
  get_or_0 same k ((j, m) ∷ d) = let rest = get_or_0 same k d in if same j k then m else rest

  pub sum_of-add_to :
      (same : K → K → Bool) (k : K) (n : ℕ) (d : List (K × ℕ))
      → sum_of (λ e. e.1) (add_to same k n d) ≡ sum_of (λ e. e.1) d + n
  sum_of-add_to same k n [] = omega arith
  sum_of-add_to same k n (e ∷ d) = elim (Bool-cases (same e.0 k)) [
    | inl s ↦ rw s (omega arith)
    | inr s ↦ rw s (omega (arith, sum_of-add_to same k n d))
  ]

module _ {ℓ κ} {A : Type ℓ} {K : Type κ} where
  -- the loop over the rows, from the dict given
  abbrev pub collect : (K → K → Bool) → (A → K) → (A → ℕ) → List A → List (K × ℕ) → List (K × ℕ)
  collect same key value [] d = d
  collect same key value (x ∷ xs) d = collect same key value xs (add_to same (key x) (value x) d)

  -- No amount is lost in the groups.
  pub sum_of-collect :
      (same : K → K → Bool) (key : A → K) (value : A → ℕ) (xs : List A) (d : List (K × ℕ))
      → sum_of (λ e. e.1) (collect same key value xs d) ≡ sum_of (λ e. e.1) d + sum_of value xs
  sum_of-collect same key value [] d = omega arith
  sum_of-collect same key value (x ∷ xs) d = omega (
    arith,
    sum_of-collect same key value xs (add_to same (key x) (value x) d),
    sum_of-add_to same (key x) (value x) d,
  )

-- numbers as keys
abbrev pub get_at : ℕ → List (ℕ × ℕ) → ℕ
get_at = get_or_0 (λ i j. i == j)

get_at-add_to :
    (k j n : ℕ) (d : List (ℕ × ℕ))
    → get_at j (add_to (λ a b. a == b) k n d) ≡ get_at j d + (if k == j then n else 0)
get_at-add_to k j n [] = ground arith
get_at-add_to k j n (e ∷ d) = ground (arith, get_at-add_to k j n d)

-- What a key has in the end.
pub get_at-collect {ℓ} :
    {A : Type ℓ} (key value : A → ℕ) (k : ℕ) (xs : List A) (d : List (ℕ × ℕ))
    → get_at k (collect (λ a b. a == b) key value xs d)
      ≡ get_at k d + sum_of (λ x. if key x == k then value x else 0) xs
get_at-collect key value k [] d = omega arith
get_at-collect key value k (x ∷ xs) d = omega (
  arith,
  get_at-collect key value k xs (add_to (λ a b. a == b) (key x) (value x) d),
  get_at-add_to (key x) k (value x) d,
)
