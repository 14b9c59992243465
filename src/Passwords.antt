-- ===== src/Passwords.antt =====
-- core/passwords.py: which passwords are refused. The tests on one character are Python's, on code
-- points, and are fields of `Unicode` with `str.lower` and `int` of a digit.
pub mod Reached
use Prim.Native.Char.{code}
use karibu.Prelude.{
  ℕ, ◌+◌, String, Bool, true, false, ◌&&◌, ◌||◌, not, Option, none, some, List, [], ◌∷◌, ◌++◌, ltb,
  ◌==◌, str_eq, if◌then◌else◌, is_empty, length as list_length,
}

pub record Unicode : Type 0 where
  pub lower : String → String
  pub islower : ℕ → Bool
  pub isupper : ℕ → Bool
  pub isdigit : ℕ → Bool
  pub int_of : ℕ → ℕ

-- the characters of a text
abbrev pub codes : String → List ℕ
codes String.[] = []
codes (String.◌∷◌ c s) = code c ∷ codes s

-- `any(test(c) for c in s)` and `all(…)`
abbrev pub any : (ℕ → Bool) → List ℕ → Bool
any test [] = false
any test (c ∷ cs) = test c || any test cs

abbrev pub all : (ℕ → Bool) → List ℕ → Bool
all test [] = true
all test (c ∷ cs) = test c && all test cs

-- `c in cs`
abbrev pub has_code : List ℕ → ℕ → Bool
has_code cs c = any (λ d. d == c) cs

abbrev pub has_text : List String → String → Bool
has_text [] s = false
has_text (t ∷ ts) s = str_eq t s || has_text ts s

-- `COMMON_PASSWORDS` and `SPECIAL_CHARACTERS`
unfoldable pub common_passwords : List String
common_passwords =
    "password" ∷ "password1" ∷ "password123" ∷ "passw0rd" ∷ "p@ssw0rd" ∷ "12345678" ∷ "123456789"
    ∷ "1234567890" ∷ "87654321" ∷ "11111111" ∷ "00000000" ∷ "12341234" ∷ "12344321" ∷ "123123123"
    ∷ "1q2w3e4r" ∷ "1qaz2wsx" ∷ "qwerty123" ∷ "qwertyuiop" ∷ "asdfghjkl" ∷ "zxcvbnm1" ∷ "abcd1234"
    ∷ "abc12345" ∷ "a1b2c3d4" ∷ "qwer1234" ∷ "letmein1" ∷ "welcome1" ∷ "sunshine" ∷ "iloveyou"
    ∷ "princess" ∷ "football" ∷ "baseball" ∷ "superman" ∷ "trustno1" ∷ "dragon12" ∷ "monkey12"
    ∷ "shadow12" ∷ "master12" ∷ "hello123" ∷ "freedom1" ∷ "whatever" ∷ "michael1" ∷ "jennifer"
    ∷ "computer" ∷ "internet" ∷ "samsung1" ∷ "liverpool" ∷ "arsenal1" ∷ "chelsea1" ∷ "manchester"
    ∷ "starwars" ∷ "pokemon1" ∷ "naruto12" ∷ "minecraft" ∷ "roblox123" ∷ "fortnite" ∷ "admin123"
    ∷ "administrator" ∷ "root1234" ∷ "user1234" ∷ "test1234" ∷ "demo1234" ∷ "guest123" ∷ "changeme"
    ∷ "default1" ∷ "secret12" ∷ "kenya123" ∷ "nairobi1" ∷ "mombasa1" ∷ "safaricom" ∷ "mpesa123"
    ∷ "karibu123" ∷ "jambo123" ∷ "hakuna123" ∷ "kenya2024" ∷ "kenya2025" ∷ "aaaaaaaa" ∷ "qqqqqqqq"
    ∷ "11223344" ∷ "10203040" ∷ "19871987" ∷ "19901990" ∷ "19951995" ∷ "20002000" ∷ "20102010"
    ∷ "20202020" ∷ []

unfoldable pub special_characters : List ℕ
special_characters = codes "!@#$%^&*()-_=+[]{};:,.<>?/\\|`~\"'"

-- the ids of `PASSWORD_RULES`
pub data PasswordRule : Type 0 where
  length lower upper digit special : PasswordRule

-- what `password_problem` tells; its texts are not modelled
pub data PasswordProblem : Type 0 where
  needs : List PasswordRule → PasswordProblem
  too_common single_character number_sequence : PasswordProblem

-- `if not test: failed.append(rule)`
abbrev pub fails : Bool → PasswordRule → List PasswordRule
fails true rule = []
fails false rule = rule ∷ []

-- `len(set(cs)) == 1`
abbrev pub is_single : List ℕ → Bool
is_single [] = false
is_single (c ∷ cs) = all (λ d. d == c) cs

-- `diffs <= {step}`, where the difference of `b` and `a` is the step when `b + down ≡ a + up`
abbrev has_steps : ℕ → ℕ → List ℕ → Bool
has_steps up down [] = true
has_steps up down (a ∷ ds) = go a ds
  where
    go : ℕ → List ℕ → Bool
    go a [] = true
    go a (b ∷ ds) = b + down == a + up && go b ds

abbrev map_codes : (ℕ → ℕ) → List ℕ → List ℕ
map_codes f [] = []
map_codes f (c ∷ cs) = f c ∷ map_codes f cs

module _ (py : Unicode) where
  -- `failed_password_rules`
  unfoldable pub failed_password_rules : String → List PasswordRule
  failed_password_rules password =
      let cs = codes password in
      fails (not (ltb (list_length cs) 8)) PasswordRule.length
      ++ fails (any py.islower cs) PasswordRule.lower
      ++ fails (any py.isupper cs) PasswordRule.upper
      ++ fails (any py.isdigit cs) PasswordRule.digit
      ++ fails (any (has_code special_characters) cs) PasswordRule.special

  -- `str.isdigit`
  abbrev pub is_digits : List ℕ → Bool
  is_digits [] = false
  is_digits (c ∷ cs) = all py.isdigit (c ∷ cs)

  -- the digits of a text are a sequence, up, down or level
  unfoldable pub is_sequence : List ℕ → Bool
  is_sequence cs =
      let digits = map_codes py.int_of cs in
      has_steps 1 0 digits || has_steps 0 1 digits || has_steps 0 0 digits

  -- the checks that follow those of the rules
  unfoldable pub quality_problem : String → Option PasswordProblem
  quality_problem lowered =
      if has_text common_passwords lowered
      then some too_common
      else if is_single (codes lowered)
      then some single_character
      else if is_digits (codes lowered) && is_sequence (codes lowered)
      then some number_sequence
      else none

  -- `if missing:`, and what follows
  unfoldable pub after_rules : String → List PasswordRule → Option PasswordProblem
  after_rules password [] = quality_problem (py.lower password)
  after_rules password (rule ∷ rules) = some (needs (rule ∷ rules))

  -- `password_problem`
  unfoldable pub password_problem : String → Option PasswordProblem
  password_problem password = after_rules password (failed_password_rules password)
