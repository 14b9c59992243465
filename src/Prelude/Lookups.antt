-- ===== src/Prelude/Lookups.antt =====
-- Whether a table has a row under a condition, after insertions, updates and deletes.
use karibu.Prelude.Tests.{is_some, Bool-cases}
use karibu.Prelude.Sums.{All}
use karibu.Prelude.Table.{select, select_all, update, delete}
use mathlib.Core.Path.{◌≡◌, refl}
use mathlib.Core.Logic.{inl, inr}
use mathlib.Core.Bool.{Bool, true, false}
use mathlib.Core.Option.{none, some}
use mathlib.Core.List.{List, [], ◌∷◌, ◌++◌}
use native.Mathlib.Omega.{arith}

module _ {ℓ} {A : Type ℓ} where
  abbrev pub Found : (A → Bool) → List A → Type 0
  Found test xs = is_some (select test xs) ≡ true

  pub Found-some : (test : A → Bool) (xs : List A) (x : A) → select test xs ≡ some x → Found test xs
  Found-some test xs x h = rw h refl

  pub Found-cons : (test : A → Bool) (x : A) (xs : List A) → Found test xs → Found test (x ∷ xs)
  Found-cons test x xs h = elim (Bool-cases (test x)) [ inl e ↦ rw e refl | inr e ↦ rw e h ]

  pub Found-append : (test : A → Bool) (xs ys : List A) → Found test xs → Found test (xs ++ ys)
  Found-append test [] ys h = absurd (cc)
  Found-append test (x ∷ xs) ys h = elim (Bool-cases (test x)) [
    | inl e ↦ rw e refl
    | inr e ↦ rw e (Found-append test xs ys (rw e at h))
  ]

  pub Found-update :
      (test other : A → Bool) (f : A → A) (xs : List A)
      → ((x : A) → test x ≡ true → other x ≡ true → test (f x) ≡ true)
      → Found test xs
      → Found test (update other f xs)
  Found-update test other f [] keeps h = absurd (cc)
  Found-update test other f (x ∷ xs) keeps h = elim (Bool-cases (other x)) [
    | inl o ↦ rw o (elim (Bool-cases (test x)) [
      | inl e ↦ rw (keeps x e o) refl
      | inr e ↦
          Found-cons test (f x) (update other f xs) (Found-update test other f xs keeps (rw e at h))
    ])
    | inr o ↦ rw o (elim (Bool-cases (test x)) [
      | inl e ↦ rw e refl
      | inr e ↦ rw e (Found-update test other f xs keeps (rw e at h))
    ])
  ]

  pub Found-delete :
      (test other : A → Bool) (xs : List A)
      → ((x : A) → test x ≡ true → other x ≡ false)
      → Found test xs
      → Found test (delete other xs)
  Found-delete test other [] stays h = absurd (cc)
  Found-delete test other (x ∷ xs) stays h = elim (Bool-cases (test x)) [
    | inl e ↦ rw (stays x e, e) refl
    | inr e ↦
        let rest = Found-delete test other xs stays (rw e at h) in
        elim (Bool-cases (other x)) [ inl o ↦ rw o rest | inr o ↦ rw (o, e) rest ]
  ]

  -- Every row that a query may find is rewritten to one and the same, or is deleted.
  pub select-update_const :
      (test other : A → Bool) (y : A) (xs : List A)
      → ((x : A) → test x ≡ true → other x ≡ true)
      → test y ≡ true
      → Found test xs
      → select test (update other (λ _. y) xs) ≡ some y
  select-update_const test other y [] only t h = absurd (cc)
  select-update_const test other y (x ∷ xs) only t h = elim (Bool-cases (other x)) [
    | inl o ↦ rw (o, t) refl
    | inr o ↦
        let off : test x ≡ false = ground (arith, only x) in
        rw (o, off) (select-update_const test other y xs only t (rw off at h))
  ]

  -- The row that a query found, after another condition has rewritten it.
  pub select-rewritten :
      (test other : A → Bool) (y z : A) (xs : List A)
      → select test xs ≡ some z
      → other z ≡ true
      → test y ≡ true
      → select test (update other (λ _. y) xs) ≡ some y
  select-rewritten test other y z [] found o t = absurd (cc)
  select-rewritten test other y z (x ∷ xs) found o t = elim (Bool-cases (other x)) [
    | inl e ↦ rw (e, t) refl
    | inr e ↦ elim (Bool-cases (test x)) [
      | inl hit ↦ let same : x ≡ z = ground (arith, found) in absurd (cc)
      | inr miss ↦ rw (e, miss) (select-rewritten test other y z xs (rw miss at found) o t)
    ]
  ]

  pub select-delete-none :
      (test other : A → Bool) (xs : List A)
      → ((x : A) → test x ≡ true → other x ≡ true)
      → select test (delete other xs) ≡ none
  select-delete-none test other [] only = refl
  select-delete-none test other (x ∷ xs) only = elim (Bool-cases (other x)) [
    | inl o ↦ rw o (select-delete-none test other xs only)
    | inr o ↦
        let off : test x ≡ false = ground (arith, only x) in
        rw (o, off) (select-delete-none test other xs only)
  ]

module _ {ℓ κ} {A : Type ℓ} where
  pub All-select_all :
      (P : A → Type κ) (test : A → Bool) (xs : List A) → All P xs → All P (select_all test xs)
  All-select_all P test [] h = tt
  All-select_all P test (x ∷ xs) h = elim (Bool-cases (test x)) [
    | inl e ↦ rw e (h.0, All-select_all P test xs h.1)
    | inr e ↦ rw e (All-select_all P test xs h.1)
  ]

  pub All-always : (P : A → Type κ) → ((x : A) → P x) → (xs : List A) → All P xs
  All-always P f [] = tt
  All-always P f (x ∷ xs) = (f x, All-always P f xs)

  -- What remains after a delete fails its condition.
  pub All-delete :
      (P Q : A → Type κ) (test : A → Bool) (xs : List A)
      → ((x : A) → P x → test x ≡ false → Q x)
      → All P xs
      → All Q (delete test xs)
  All-delete P Q test [] keeps h = tt
  All-delete P Q test (x ∷ xs) keeps h = elim (Bool-cases (test x)) [
    | inl e ↦ rw e (All-delete P Q test xs keeps h.1)
    | inr e ↦ rw e (keeps x h.0 e, All-delete P Q test xs keeps h.1)
  ]
