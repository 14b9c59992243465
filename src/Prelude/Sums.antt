-- ===== src/Prelude/Sums.antt =====
-- Sums over a list, in ℕ and in ℤ, and predicates on all elements.
use karibu.Prelude.Int.{ℤ, pos, ◌+ℤ◌, int_laws}
use Prim.Native.Nat.{ℕ, suc, ◌+◌}
use mathlib.Core.Path.{◌≡◌}
use mathlib.Core.List.{List, [], ◌∷◌, ◌++◌}
use native.Mathlib.Omega.{arith}

module _ {ℓ} {A : Type ℓ} where
  abbrev pub length : List A → ℕ
  length [] = 0
  length (x ∷ xs) = suc (length xs)

  abbrev pub sum_of : (A → ℕ) → List A → ℕ
  sum_of f [] = 0
  sum_of f (x ∷ xs) = f x + sum_of f xs

  abbrev pub sum_ℤ : (A → ℤ) → List A → ℤ
  sum_ℤ f [] = pos 0
  sum_ℤ f (x ∷ xs) = f x +ℤ sum_ℤ f xs

  pub sum_of-append : (f : A → ℕ) (xs ys : List A) → sum_of f (xs ++ ys) ≡ sum_of f xs + sum_of f ys
  sum_of-append f [] ys = omega arith
  sum_of-append f (x ∷ xs) ys = omega (arith, sum_of-append f xs ys)

  pub sum_ℤ-append : (f : A → ℤ) (xs ys : List A) → sum_ℤ f (xs ++ ys) ≡ sum_ℤ f xs +ℤ sum_ℤ f ys
  sum_ℤ-append f [] ys = omega int_laws
  sum_ℤ-append f (x ∷ xs) ys = rw (sum_ℤ-append f xs ys) (omega int_laws)

module _ {ℓ κ} {A : Type ℓ} where
  abbrev pub All : (A → Type κ) → List A → Type κ
  All P [] = Unit
  All P (x ∷ xs) = P x × All P xs

  pub All-append : (P : A → Type κ) (xs ys : List A) → All P xs → All P ys → All P (xs ++ ys)
  All-append P [] ys hx hy = hy
  All-append P (x ∷ xs) ys hx hy = (hx.0, All-append P xs ys hx.1 hy)

  pub All-mono : (P Q : A → Type κ) (xs : List A) → ((x : A) → P x → Q x) → All P xs → All Q xs
  All-mono P Q [] f h = tt
  All-mono P Q (x ∷ xs) f h = (f x h.0, All-mono P Q xs f h.1)

  pub All-zip :
      (P Q R : A → Type κ) (xs : List A)
      → ((x : A) → P x → Q x → R x)
      → All P xs
      → All Q xs
      → All R xs
  All-zip P Q R [] f h k = tt
  All-zip P Q R (x ∷ xs) f h k = (f x h.0 k.0, All-zip P Q R xs f h.1 k.1)

  pub All-last : (P : A → Type κ) (xs : List A) (x : A) → All P (xs ++ x ∷ []) → P x
  All-last P [] x h = h.0
  All-last P (y ∷ ys) x h = All-last P ys x h.1
