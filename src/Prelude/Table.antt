-- ===== src/Prelude/Table.antt =====
-- A database table as the list of its rows: queries, updates and deletes by a condition.
use karibu.Prelude.Tests.{if◌then◌else◌, Bool-cases}
use karibu.Prelude.Sums.{All}
use mathlib.Core.Path.{◌≡◌, refl, sym, subst}
use mathlib.Core.Logic.{inl, inr}
use mathlib.Core.Bool.{Bool, true, false}
use mathlib.Core.Option.{Option, none, some}
use mathlib.Core.List.{List, [], ◌∷◌, ◌++◌}
use native.Mathlib.Omega.{arith}

module _ {ℓ} {A : Type ℓ} where
  -- the first row that `select(T).where(test)` returns
  abbrev pub select : (A → Bool) → List A → Option A
  select test [] = none
  select test (x ∷ xs) = if test x then some x else select test xs

  -- all of them, in order
  abbrev pub select_all : (A → Bool) → List A → List A
  select_all test [] = []
  select_all test (x ∷ xs) = let rest = select_all test xs in if test x then x ∷ rest else rest

  -- the flush of a changed row: `UPDATE T SET … WHERE test`
  abbrev pub update : (A → Bool) → (A → A) → List A → List A
  update test f [] = []
  update test f (x ∷ xs) = (if test x then f x else x) ∷ update test f xs

  -- `DELETE FROM T WHERE test`
  abbrev pub delete : (A → Bool) → List A → List A
  delete test [] = []
  delete test (x ∷ xs) = let rest = delete test xs in if test x then rest else x ∷ rest

  pub select-test :
      (test : A → Bool) (xs : List A) (x : A) → select test xs ≡ some x → test x ≡ true
  select-test test [] x h = cc
  select-test test (y ∷ ys) x h = ground (arith, select-test test ys x)

  pub select-append_none :
      (test : A → Bool) (xs : List A) (x : A)
      → select test xs ≡ none
      → test x ≡ true
      → select test (xs ++ x ∷ []) ≡ some x
  select-append_none test [] x h t = ground arith
  select-append_none test (y ∷ ys) x h t = ground (arith, select-append_none test ys x)

  -- The row that a query found, after its update.
  pub select-update :
      (test : A → Bool) (f : A → A) (xs : List A) (x : A)
      → select test xs ≡ some x
      → test (f x) ≡ true
      → select test (update test f xs) ≡ some (f x)
  select-update test f [] x h t = cc
  select-update test f (y ∷ ys) x h t = elim (Bool-cases (test y)) [
    | inl e ↦
        let same : y ≡ x = ground arith in
        subst (λ z. select test ((if test z then f z else z) ∷ update test f ys) ≡ some (f x))
          (sym same) (rw (select-test test (y ∷ ys) x h, t) refl)
    | inr e ↦ rw (e, e) (select-update test f ys x (rw e at h) t)
  ]

  -- An update of other rows does not change what a query finds.
  pub select-update_other :
      (test other : A → Bool) (f : A → A) (xs : List A)
      → ((x : A) → other x ≡ true → (test x ≡ false) × (test (f x) ≡ false))
      → select test (update other f xs) ≡ select test xs
  select-update_other test other f [] h = refl
  select-update_other test other f (y ∷ ys) h = elim (Bool-cases (other y)) [
    | inl e ↦ rw (e, (h y e).0, (h y e).1) (select-update_other test other f ys h)
    | inr e ↦ rw (e, select-update_other test other f ys h) refl
  ]

module _ {ℓ κ} {A : Type ℓ} where
  pub All-select :
      (P : A → Type κ) (test : A → Bool) (xs : List A) (x : A)
      → All P xs
      → select test xs ≡ some x
      → P x
  All-select P test [] x h e = absurd (cc)
  All-select P test (y ∷ ys) x h e = elim (Bool-cases (test y)) [
    | inl yes_it ↦ subst P (let same : y ≡ x = ground arith in same) h.0
    | inr not_it ↦ All-select P test ys x h.1 (rw not_it at e)
  ]

  -- Rows that the condition picks have `Q` after the update; the others have it already.
  pub All-update :
      (P Q : A → Type κ) (test : A → Bool) (f : A → A) (xs : List A)
      → ((x : A) → P x → test x ≡ true → Q (f x))
      → ((x : A) → P x → test x ≡ false → Q x)
      → All P xs
      → All Q (update test f xs)
  All-update P Q test f [] on off h = tt
  All-update P Q test f (x ∷ xs) on off h = (
    elim (Bool-cases (test x)) [ inl e ↦ rw e (on x h.0 e) | inr e ↦ rw e (off x h.0 e) ],
    All-update P Q test f xs on off h.1,
  )
