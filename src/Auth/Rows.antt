-- ===== src/Auth/Rows.antt =====
-- Rows of users under tests, for the handlers of routers/auth.py.
use karibu.Prelude.{
  ℕ, ◌≡◌, ◌≢◌, ◌⊎◌, inl, inr, refl, sym, ap, ◌∙◌, Bool, true, false, ◌&&◌, none, some, List, [],
  ◌∷◌, arith, ◌==◌, if◌then◌else◌, select, select_all, update, All, All-update, All-select,
  Bool-cases,
}
use mathlib.Core.Path.{subst}
use karibu.Access.{User}
use karibu.Accounts.{is_user, HasUserIds}

-- Of the rows found by a test, the first that passes another, when none of the rows has both.
pub select-none_of :
    (test other : User → Bool) (us : List User)
    → All (λ u. (test u && other u) ≡ false) us
    → select other (select_all test us) ≡ none
select-none_of test other [] h = refl
select-none_of test other (u ∷ us) h = ground (arith, select-none_of test other us)

pub update-none_of :
    (test : User → Bool) (f : User → User) (us : List User)
    → select_all test us ≡ []
    → update test f us ≡ us
update-none_of test f [] h = refl
update-none_of test f (u ∷ us) h = elim (Bool-cases (test u)) [
  | inl e ↦ absurd (ground arith)
  | inr e ↦ rw (e, update-none_of test f us (rw e at h)) refl
]

pub list-cases : (us : List User) → (us ≡ []) ⊎ ((c : User) × (cs : List User) × (us ≡ c ∷ cs))
list-cases [] = inl refl
list-cases (c ∷ cs) = inr (c, cs, refl)

-- What a query by id finds after an update that keeps the ids.
id-kept :
    (test : User → Bool) (f : User → User) (v : User)
    → (f v).id ≡ v.id
    → (if test v then f v else v).id ≡ v.id
id-kept test f v same = elim (Bool-cases (test v)) [ inl e ↦ rw e same | inr e ↦ rw e refl ]

pub select-update_by :
    (k : ℕ) (test : User → Bool) (f : User → User) (us : List User) (u : User)
    → ((v : User) → (f v).id ≡ v.id)
    → test u ≡ true
    → select (is_user k) us ≡ some u
    → select (is_user k) (update test f us) ≡ some (f u)
select-update_by k test f [] u same t h = absurd (cc)
select-update_by k test f (v ∷ vs) u same t h =
    let kept = id-kept test f v (same v) in
    elim (Bool-cases (v.id == k)) [
      | inl e ↦
          let vu : v ≡ u = ground arith in
          rw (kept, e)
            (subst (λ z. some (if test z then f z else z) ≡ some (f u)) (sym vu) (rw t refl))
      | inr e ↦ rw (kept, e) (select-update_by k test f vs u same t (rw e at h))
    ]

pub HasUserIds-update :
    (test : User → Bool) (f : User → User) (us : List User)
    → ((v : User) → (f v).id ≡ v.id)
    → HasUserIds us
    → HasUserIds (update test f us)
HasUserIds-update test f [] same h = tt
HasUserIds-update test f (v ∷ vs) same h = (
  rw (id-kept test f v (same v)) (
      All-update (λ (x : User). x.id ≢ v.id) (λ (x : User). x.id ≢ v.id) test f vs
        (λ x p _. rw (same x) p) (λ x p _. p) h.0),
  HasUserIds-update test f vs same h.1,
)

-- The row of an id is the only one.
pub HasUserIds-same :
    (us : List User) (test : User → Bool) (k : ℕ) (u v : User)
    → HasUserIds us
    → select (is_user k) us ≡ some u
    → select test us ≡ some v
    → v.id ≡ k
    → v ≡ u
HasUserIds-same [] test k u v ids found other same = absurd (cc)
HasUserIds-same (x ∷ xs) test k u v ids found other same = elim (Bool-cases (x.id == k)) [
  | inl here ↦
      let xu : x ≡ u = ground arith in
      elim (Bool-cases (test x)) [
        | inl t ↦ let xv : x ≡ v = ground arith in sym xv ∙ xu
        | inr t ↦
            let apart = All-select (λ (y : User). y.id ≢ x.id) test xs v ids.0 (rw t at other) in
            absurd (ground arith)
      ]
  | inr there ↦ elim (Bool-cases (test x)) [
    | inl t ↦
        let xv : x ≡ v = ground arith in
        let own : x.id ≡ k = ap (λ (y : User). y.id) xv ∙ same in absurd (ground arith)
    | inr t ↦ HasUserIds-same xs test k u v ids.1 (rw there at found) (rw t at other) same
  ]
]

-- A row found by one test among those found by another.
pub select-select_all :
    (test other : User → Bool) (us : List User) (v : User)
    → select other (select_all test us) ≡ some v
    → select (λ u. test u && other u) us ≡ some v
select-select_all test other [] v h = h
select-select_all test other (u ∷ us) v h = ground (arith, select-select_all test other us v)

pub update-absent :
    (k : ℕ) (s : User) (us : List User)
    → All (λ (x : User). x.id ≢ k) us
    → update (is_user k) (λ _. s) us ≡ us
update-absent k s [] h = refl
update-absent k s (x ∷ xs) h =
    let other : (x.id == k) ≡ false = ground arith in rw (other, update-absent k s xs h.1) refl

-- The rows that a query returns pass its test.
pub select_all-head :
    (test : User → Bool) (us : List User) (u : User) (rest : List User)
    → select_all test us ≡ u ∷ rest
    → test u ≡ true
select_all-head test [] u rest h = absurd (cc)
select_all-head test (x ∷ xs) u rest h = elim (Bool-cases (test x)) [
  | inl e ↦ let same : x ≡ u = ground arith in subst (λ z. test z ≡ true) same e
  | inr e ↦ select_all-head test xs u rest (rw e at h)
]
