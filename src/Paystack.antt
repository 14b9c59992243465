-- ===== src/Paystack.antt =====
-- services/paystack.py: the phone number as Paystack wants it. A text is the list of its code points
-- where its characters matter.
pub mod Phone
use karibu.Prelude.{
  ℕ, ◌+◌, String, Bool, true, false, ◌||◌, not, List, [], ◌∷◌, ◌++◌, ◌==◌, if◌then◌else◌,
  select_all, strip,
}
use karibu.Passwords.{codes}

-- `.replace(" ", "").replace("-", "").replace("+", "")`
abbrev pub is_mark : ℕ → Bool
is_mark c = c == 32 || c == 45 || c == 43

unfoldable pub without_marks : List ℕ → List ℕ
without_marks cs = select_all (λ c. not (is_mark c)) cs

-- "254"
abbrev pub country : List ℕ
country = 50 ∷ 53 ∷ 52 ∷ []

-- the branches on the first digit
unfoldable pub with_country : List ℕ → List ℕ
with_country [] = []
with_country (c ∷ cs) =
    if c == 48 then country ++ cs else if c == 55 || c == 49 then country ++ c ∷ cs else c ∷ cs

-- `normalize_phone`
unfoldable pub normalize_phone : String → List ℕ
unfolding without_marks with_country
normalize_phone phone = 43 ∷ with_country (without_marks (codes (strip phone)))
