-- ===== src/Passwords/Reached.antt =====
-- Which checks of `password_problem` (core/passwords.py) a password can still fail once it satisfies
-- the rules of composition.
use karibu.Prelude.{
  ℕ, ◌≡◌, ◌⊎◌, inl, inr, refl, sym, ◌∙◌, String, Bool, true, false, ◌&&◌, ◌||◌, not, some, List, [],
  ◌∷◌, ◌++◌, arith, ◌==◌, ==_iff, str_eq, eq_iff, Bool-cases,
}
use mathlib.Core.Path.{subst}
use karibu.Passwords.{
  Unicode, codes, any, all, has_code, has_text, common_passwords, special_characters, PasswordRule,
  PasswordProblem, fails, needs, too_common, is_single, is_digits, failed_password_rules,
  quality_problem, after_rules, password_problem,
}

-- What Python documents of `str.lower` and `str.isdigit`: digits and the special characters, which
-- are ASCII's, have no other case, so lower case keeps them; no special character is a digit.
pub record IsUncased (py : Unicode) : Type 0 where
  pub keeps_digits :
      (s : String) (c : ℕ)
      → py.isdigit c ≡ true
      → has_code (codes s) c ≡ true
      → has_code (codes (py.lower s)) c ≡ true
  pub keeps_specials :
      (s : String) (c : ℕ)
      → has_code special_characters c ≡ true
      → has_code (codes s) c ≡ true
      → has_code (codes (py.lower s)) c ≡ true
  pub specials : (c : ℕ) → has_code special_characters c ≡ true → py.isdigit c ≡ false

-- A character that a test finds.
any-found :
    (test : ℕ → Bool) (cs : List ℕ)
    → any test cs ≡ true
    → (c : ℕ) × (has_code cs c ≡ true) × (test c ≡ true)
any-found test [] h = absurd (cc)
any-found test (d ∷ ds) h = elim (Bool-cases (test d)) [
  | inl e ↦ (d, ground arith, e)
  | inr e ↦ let (c, there, t) = any-found test ds (rw e at h) in (c, ground arith, t)
]

all-found :
    (test : ℕ → Bool) (cs : List ℕ) (c : ℕ)
    → all test cs ≡ true
    → has_code cs c ≡ true
    → test c ≡ true
all-found test [] c h there = absurd (cc)
all-found test (d ∷ ds) c h there = elim (Bool-cases (d == c)) [
  | inl e ↦ let same = (==_iff d c).0 e in subst (λ x. test x ≡ true) same (ground arith)
  | inr e ↦ all-found test ds c (ground arith) (rw e at there)
]

-- In a text of one character repeated, all characters are the same.
is_single-same :
    (cs : List ℕ) (c d : ℕ)
    → is_single cs ≡ true
    → has_code cs c ≡ true
    → has_code cs d ≡ true
    → c ≡ d
is_single-same [] c d h there other = absurd (cc)
is_single-same (x ∷ xs) c d h there other =
    let same = all-found (λ y. y == x) (x ∷ xs) in
    let first : all (λ y. y == x) (x ∷ xs) ≡ true = ground arith in
    let at_c = (==_iff c x).0 (same c first there) in
    let at_d = (==_iff d x).0 (same d first other) in at_c ∙ sym at_d

-- The one common password with a special character.
abbrev is_reached : String → Bool
is_reached w = not (any (has_code special_characters) (codes w)) || str_eq w "p@ssw0rd"

abbrev all_texts : (String → Bool) → List String → Bool
all_texts test [] = true
all_texts test (w ∷ ws) = test w && all_texts test ws

common-reached : all_texts is_reached common_passwords ≡ true
unfolding common_passwords special_characters
common-reached = refl

has_text-all :
    (test : String → Bool) (ws : List String) (s : String)
    → all_texts test ws ≡ true
    → has_text ws s ≡ true
    → test s ≡ true
has_text-all test [] s h there = absurd (cc)
has_text-all test (w ∷ ws) s h there = elim (Bool-cases (str_eq w s)) [
  | inl e ↦ subst (λ x. test x ≡ true) ((eq_iff w s).0 e) (ground arith)
  | inr e ↦ has_text-all test ws s (ground arith) (rw e at there)
]

any-there :
    (test : ℕ → Bool) (cs : List ℕ) (c : ℕ)
    → has_code cs c ≡ true
    → test c ≡ true
    → any test cs ≡ true
any-there test [] c there t = absurd (cc)
any-there test (d ∷ ds) c there t = elim (Bool-cases (d == c)) [
  | inl e ↦
      let at_d : test d ≡ true = subst (λ x. test x ≡ true) (sym ((==_iff d c).0 e)) t in
      ground arith
  | inr e ↦ let rest = any-there test ds c (rw e at there) t in ground arith
]

append-empty {ℓ} : {A : Type ℓ} (xs ys : List A) → xs ++ ys ≡ [] → (xs ≡ []) × (ys ≡ [])
append-empty [] ys h = (refl, h)
append-empty (x ∷ xs) ys h = absurd (cc)

fails-empty : (b : Bool) (rule : PasswordRule) → fails b rule ≡ [] → b ≡ true
fails-empty true rule h = refl
fails-empty false rule h = absurd (cc)

-- A password that breaks no rule has a digit and a special character.
rules-kept :
    (py : Unicode) (password : String)
    → failed_password_rules py password ≡ []
    → (any py.isdigit (codes password) ≡ true)
      × (any (has_code special_characters) (codes password) ≡ true)
unfolding failed_password_rules
rules-kept py password h =
    let digits = any py.isdigit (codes password) in
    let specials = any (has_code special_characters) (codes password) in
    let (rest, special) = append-empty _ (fails specials PasswordRule.special) h in
    let (_, digit) = append-empty _ (fails digits PasswordRule.digit) rest in
    (fails-empty digits PasswordRule.digit digit, fails-empty specials PasswordRule.special special)

some-same {ℓ} : {A : Type ℓ} (a b : A) → some a ≡ some b → a ≡ b
some-same a b h = cc

is_digits-all :
    (py : Unicode) (cs : List ℕ) (c : ℕ)
    → is_digits py cs ≡ true
    → has_code cs c ≡ true
    → py.isdigit c ≡ true
is_digits-all py [] c h there = absurd (cc)
is_digits-all py (d ∷ ds) c h there = all-found py.isdigit (d ∷ ds) c h there

rules-cases :
    (rules : List PasswordRule)
    → (rules ≡ []) ⊎ ((r : PasswordRule) × (rs : List PasswordRule) × (rules ≡ r ∷ rs))
rules-cases [] = inl refl
rules-cases (r ∷ rs) = inr (r, rs, refl)

-- What the later checks find in a text with a digit and a special character.
quality-reached :
    (py : Unicode) (lowered : String) (d c : ℕ) (problem : PasswordProblem)
    → has_code (codes lowered) d ≡ true
    → has_code (codes lowered) c ≡ true
    → py.isdigit d ≡ true
    → py.isdigit c ≡ false
    → has_code special_characters c ≡ true
    → quality_problem py lowered ≡ some problem
    → (problem ≡ too_common) × (lowered ≡ "p@ssw0rd")
unfolding quality_problem
quality-reached py lowered d c problem has_d has_c digit other special h =
    elim (Bool-cases (has_text common_passwords lowered)) [
      | inl e ↦
          let reached = has_text-all is_reached common_passwords lowered common-reached e in
          let found = any-there (has_code special_characters) (codes lowered) c has_c special in
          (
            sym (some-same too_common problem (rw e at h)),
            (eq_iff lowered "p@ssw0rd").0 (ground arith),
          )
      | inr e ↦
          let rest = rw e at h in
          elim (Bool-cases (is_single (codes lowered))) [
            | inl one ↦
                let same = is_single-same (codes lowered) d c one has_d has_c in
                let clash : py.isdigit c ≡ true = subst (λ x. py.isdigit x ≡ true) same digit in
                absurd (cc)
            | inr many ↦ elim (Bool-cases (is_digits py (codes lowered))) [
              | inl digits ↦
                  let clash = is_digits-all py (codes lowered) c digits has_c in absurd (cc)
              | inr mixed ↦ absurd (let nothing = rw (many, mixed) at rest in cc)
            ]
          ]
    ]

-- A password with a problem either breaks a rule of composition or is a common one that reads
-- p@ssw0rd in lower case, where lower case keeps the digits and the special characters and no
-- special character is a digit: no other common password and neither of the last two checks is
-- ever reached.
pub password_problem_reached :
    (py : Unicode) (password : String) (problem : PasswordProblem)
    → IsUncased py
    → password_problem py password ≡ some problem
    → ((rules : List PasswordRule) × (problem ≡ needs rules))
      ⊎ ((problem ≡ too_common) × (py.lower password ≡ "p@ssw0rd"))
unfolding password_problem after_rules
password_problem_reached py password problem uncased h =
    elim (rules-cases (failed_password_rules py password)) [
      | inl e ↦
          let (has_digit, has_special) = rules-kept py password e in
          let (d, at_d, digit) = any-found py.isdigit (codes password) has_digit in
          let (c, at_c, special) =
            any-found (has_code special_characters) (codes password) has_special in
          inr (
            quality-reached py (py.lower password) d c problem
              (uncased.keeps_digits password d digit at_d)
              (uncased.keeps_specials password c special at_c) digit (uncased.specials c special)
              special (rw e at h))
      | inr (rule, rules, e) ↦
          inl (rule ∷ rules, sym (some-same (needs (rule ∷ rules)) problem (rw e at h)))
    ]
