-- ===== src/Paystack/Phone.antt =====
-- What `normalize_phone` (services/paystack.py) makes of a number that `_looks_like_mpesa`
-- (routers/billing.py) lets pass.
use karibu.Prelude.{
  ℕ, ◌≡◌, refl, ap, ◌∙◌, String, Bool, true, false, ◌||◌, List, [], ◌∷◌, ◌++◌, arith, ◌==◌,
  select_all, length, strip, All, Bool-cases, inl, inr,
}
use karibu.Passwords.{codes}
use karibu.Billing.Routes.{has_mpesa_shape, looks_like_mpesa, starts_254}
use karibu.Paystack.{is_mark, without_marks, country, with_country, normalize_phone}

-- "254" and the last nine of the digits
abbrev pub IsInternational : List ℕ → List ℕ → Type 0
IsInternational digits cs =
    (lead rest : List ℕ) × (cs ≡ country ++ rest) × (length rest ≡ 9) × (digits ≡ lead ++ rest)

from_254 : (cs : List ℕ) → length cs ≡ 12 → starts_254 cs ≡ true → IsInternational cs cs
from_254 (a ∷ b ∷ c ∷ cs) long starts =
    let x : a ≡ 50 = ground arith in
    let y : b ≡ 53 = ground arith in
    let z : c ≡ 52 = ground arith in
    (country, cs, rw (x, y, z) refl, omega (arith, long), rw (x, y, z) refl)
from_254 (a ∷ b ∷ []) long starts = absurd (cc)
from_254 (a ∷ []) long starts = absurd (cc)
from_254 [] long starts = absurd (cc)

starts_254_head : (c : ℕ) (cs : List ℕ) → starts_254 (c ∷ cs) ≡ true → c ≡ 50
starts_254_head c [] h = absurd (cc)
starts_254_head c (a ∷ []) h = absurd (cc)
starts_254_head c (a ∷ b ∷ cs) h = ground arith

nine_left :
    (c : ℕ) (cs : List ℕ)
    → (c == 55 || c == 49) ≡ true
    → has_mpesa_shape (c ∷ cs) ≡ true
    → length (c ∷ cs) ≡ 9
unfolding has_mpesa_shape
nine_left c cs mobile h = elim (Bool-cases (starts_254 (c ∷ cs))) [
  | inl abroad ↦ let first = starts_254_head c cs abroad in ground arith
  | inr home ↦ ground arith
]

shape_normalized : (ds : List ℕ) → has_mpesa_shape ds ≡ true → IsInternational ds (with_country ds)
unfolding has_mpesa_shape with_country
shape_normalized [] h = absurd (cc)
shape_normalized (c ∷ cs) h = elim (Bool-cases (c == 48)) [
  | inl zero ↦ rw zero (c ∷ [], cs, refl, ground arith, refl)
  | inr not_zero ↦ elim (Bool-cases (c == 55 || c == 49)) [
    | inl mobile ↦ rw (not_zero, mobile) ([], c ∷ cs, refl, nine_left c cs mobile h, refl)
    | inr other ↦ rw (not_zero, other) (from_254 (c ∷ cs) (ground arith) (ground arith))
  ]
]

digits_left :
    (isdigit : ℕ → Bool) (cs : List ℕ)
    → ((c : ℕ) → is_mark c ≡ true → isdigit c ≡ false)
    → All (λ c. (isdigit c || is_mark c) ≡ true) cs
    → without_marks cs ≡ select_all isdigit cs
unfolding without_marks
digits_left isdigit [] apart h = refl
digits_left isdigit (c ∷ cs) apart h =
    let rest = digits_left isdigit cs apart h.1 in
    elim (Bool-cases (is_mark c)) [
      | inl mark ↦ rw (mark, apart c mark) rest
      | inr plain ↦
          let digit : isdigit c ≡ true = ground (arith, h.0) in rw (plain, digit, rest) refl
    ]

-- A phone number of digits, spaces, hyphens and plus signs that the route of a payment lets pass
-- is sent to Paystack as a plus sign, 254 and the last nine of its digits; a space, a hyphen and a
-- plus sign are no digits of Python.
pub normalize_phone_lem :
    (isdigit : ℕ → Bool) (phone : String)
    → ((c : ℕ) → is_mark c ≡ true → isdigit c ≡ false)
    → All (λ c. (isdigit c || is_mark c) ≡ true) (codes (strip phone))
    → looks_like_mpesa isdigit (strip phone) ≡ true
    → (lead rest : List ℕ) × (normalize_phone phone ≡ 43 ∷ country ++ rest)
      × (length rest ≡ 9)
      × (select_all isdigit (codes (strip phone)) ≡ lead ++ rest)
unfolding normalize_phone looks_like_mpesa
normalize_phone_lem isdigit phone apart clean looks =
    let same = digits_left isdigit (codes (strip phone)) apart clean in
    let (lead, rest, is, nine, typed) =
      shape_normalized (select_all isdigit (codes (strip phone))) looks in
    (lead, rest, ap (λ ds. 43 ∷ with_country ds) same ∙ ap (λ cs. 43 ∷ cs) is, nine, typed)
