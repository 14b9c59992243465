-- ===== src/Sales/Collected.antt =====
-- What an order has collected in payments, and how writing back one row changes it.
use karibu.Prelude.{
  ℕ, ◌≡◌, refl, Bool, true, false, Option, none, some, List, [], ◌∷◌, arith, ◌==◌, if◌then◌else◌,
  select, update,
}
use karibu.Order.{Order, amount_paid_cents}
use karibu.Db.{is_order}

-- What the order `oid` has collected in payments.
abbrev pub collected : ℕ → List Order → Option ℕ
collected oid [] = none
collected oid (o ∷ os) = if o.id == oid then some (amount_paid_cents o) else collected oid os

pub collected-save :
    (oid key : ℕ) (o' : Order) (os : List Order)
    → o'.id ≡ key
    → collected oid (update (is_order key) (λ _. o') os) ≡ (
        if oid == key
        then (elim (collected oid os) [ none ↦ none | some _ ↦ some (amount_paid_cents o') ])
        else collected oid os)
collected-save oid key o' [] same = ground arith
collected-save oid key o' (o ∷ os) same = ground (arith, collected-save oid key o' os same)

pub collected-found :
    (oid : ℕ) (o : Order) (os : List Order)
    → select (is_order oid) os ≡ some o
    → collected oid os ≡ some (amount_paid_cents o)
collected-found oid o [] h = cc
collected-found oid o (x ∷ os) h = ground (arith, collected-found oid o os)

-- the stored rows of one order, in the form of a law
pub pick :
    (b : Bool) (o : Option ℕ) (n m old : ℕ)
    → n ≡ m
    → (b ≡ true → o ≡ some old)
    → (if b then (elim o [ none ↦ none | some _ ↦ some n ]) else o) ≡ (if b then some m else o)
pick true o n m old e h = rw (h refl, e)
pick false o n m old e h = refl
