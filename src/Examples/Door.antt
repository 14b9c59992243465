-- ===== src/Examples/Door.antt =====
-- Examples of the theorems about passwords and sign-in (core/passwords.py, routers/auth.py). Case and
-- hashes are ASCII's and a toy's: a stored hash is the length of the text.
use karibu.Prelude.{
  ℕ, ◌-◌, ◌≡◌, ◌≢◌, ◌⊎◌, inl, inr, refl, String, true, false, ◌&&◌, Option, none, some, List, [],
  ◌∷◌, arith, leb, ◌==◌, length, Bool-cases, ==_iff, zero, suc, Bool, if◌then◌else◌, strip,
}
use karibu.Api.{Result, ok, err, weak_password, too_many_attempts}
use karibu.Access.{User}
use karibu.Accounts.{Accounts}
use Prim.Native.Char.{Char, code}
use karibu.Passwords.{
  Unicode, has_code, special_characters, codes, password_problem, PasswordProblem, PasswordRule,
  needs, too_common,
}
use karibu.Passwords.Reached.{IsUncased, password_problem_reached}
use karibu.Auth.{Crypto, LockoutSettings, login, forgot_password, reset_password, hash_link_token}
use karibu.Auth.Lockout.{guess, guesses_lock_out, login-locked_answers}
use karibu.Auth.Recovery.{forgotten_password_recovered}
use karibu.Examples.{boss, waiter}

-- a letter in lower case; the lower case of the letters up to Z begins at a
abbrev letters : List Char
letters =
    "a" ∷ "b" ∷ "c" ∷ "d" ∷ "e" ∷ "f" ∷ "g" ∷ "h" ∷ "i" ∷ "j" ∷ "k" ∷ "l" ∷ "m" ∷ "n" ∷ "o" ∷ "p"
    ∷ "q" ∷ "r" ∷ "s" ∷ "t" ∷ "u" ∷ "v" ∷ "w" ∷ "x" ∷ "y" ∷ "z" ∷ []

abbrev letter : ℕ → List Char → Char → Char
letter n [] c = c
letter zero (l ∷ ls) c = l
letter (suc n) (l ∷ ls) c = letter n ls c

abbrev is_upper : ℕ → Bool
is_upper c = leb 65 c && leb c 90

abbrev lower_char : Char → Char
lower_char c = if is_upper (code c) then letter (code c - 65) letters c else c

abbrev lower_ascii : String → String
lower_ascii String.[] = String.[]
lower_ascii (String.◌∷◌ c s) = String.◌∷◌ (lower_char c) (lower_ascii s)

abbrev pub ascii : Unicode
ascii = record {
  lower = lower_ascii;
  islower = λ c. leb 97 c && leb c 122;
  isupper = is_upper;
  isdigit = λ c. leb 48 c && leb c 57;
  int_of = λ c. c - 48;
}

abbrev pub toy : Crypto
toy = record { verify = λ s h. length (codes s) == h; sha256 = λ s. length (codes s) }

abbrev settings : LockoutSettings
settings = record { threshold = 2; minutes = 15 }

-- the manager's password has eight characters
abbrev asha : User
asha = record boss { password_hash = 8 }

abbrev jane : User
jane = record waiter { email = none; phone = some "0722000001" }

abbrev team : Accounts
team = record { users = asha ∷ jane ∷ []; audits = [] }

abbrev guesses : List (String × ℕ)
guesses = ("guess", 100) ∷ ("again", 160) ∷ []

-- after the lockout asha signs in again
jane_in : Result User
unfolding login karibu.Auth.try_candidates karibu.Auth.on_match karibu.Auth.signed_in
    karibu.Auth.admit karibu.Auth.matches karibu.Auth.fail_login karibu.Auth.is_locked
    karibu.Auth.clear_lockout karibu.Auth.count_failure strip
jane_in =
    (login ascii toy settings "0722000001" "" 900
      (guess ascii toy settings "asha@karibu.test" guesses team)).1

guesses_lock_out_example : (record jane { failed_logins = 0 }).id ≢ 1
unfolding jane_in
guesses_lock_out_example =
    guesses_lock_out ascii toy settings "asha@karibu.test" guesses 1 asha team "0722000001" "" 900
      jane (omega arith) refl refl ((refl, (refl, tt)), ((refl, (refl, tt)), tt)) (omega arith) refl
      (omega arith) refl

special_plain :
    (c : ℕ)
    → has_code special_characters c ≡ true
    → (ascii.isdigit c ≡ false) × (is_upper c ≡ false)
unfolding special_characters
special_plain c h = (ground arith, ground arith)

-- Lower case keeps what is no capital letter.
lower_ascii-has_code :
    (s : String) (c : ℕ)
    → is_upper c ≡ false
    → has_code (codes s) c ≡ true
    → has_code (codes (lower_ascii s)) c ≡ true
lower_ascii-has_code String.[] c small h = h
lower_ascii-has_code (String.◌∷◌ d s) c small h = elim (Bool-cases (code d == c)) [
  | inl e ↦
      let same : code d ≡ c = (==_iff (code d) c).0 e in
      let kept : is_upper (code d) ≡ false = rw same small in rw (kept, e) refl
  | inr e ↦ let rest = lower_ascii-has_code s c small (rw e at h) in ground (arith, rest)
]

ascii-IsUncased : IsUncased ascii
ascii-IsUncased = record {
  keeps_digits = λ s c digit h. lower_ascii-has_code s c (ground arith) h;
  keeps_specials = λ s c special h. lower_ascii-has_code s c (special_plain c special).1 h;
  specials = λ c special. (special_plain c special).0;
}

problem : Option PasswordProblem
unfolding karibu.Passwords.password_problem karibu.Passwords.after_rules
    karibu.Passwords.failed_password_rules karibu.Passwords.quality_problem
    karibu.Passwords.special_characters karibu.Passwords.common_passwords
problem = password_problem ascii "P@ssw0rd"

password_problem_reached_example :
    ((rules : List PasswordRule) × (too_common ≡ needs rules))
    ⊎ ((too_common ≡ too_common) × (ascii.lower "P@ssw0rd" ≡ "p@ssw0rd"))
unfolding problem
password_problem_reached_example =
    password_problem_reached ascii "P@ssw0rd" too_common ascii-IsUncased refl

forgotten_password_recovered_example :
    (db' : Accounts) × (reset_password ascii toy "0123456789012345678901" "Nyama-Choma1" 12 1000
        (forgot_password ascii "asha@karibu.test" 22 500 team)
      ≡ ok db')
    × (row : User) × ((login ascii toy settings "asha@karibu.test" "Nyama-Choma1" 1200 db').1
        ≡ ok row)
    × (row.id ≡ 1)
    × (row.token_version ≡ 5)
    × (reset_password ascii toy "0123456789012345678901" "weak" 9 1300 db' ≡ err weak_password)
unfolding karibu.Auth.matches karibu.Auth.hash_link_token strip password_problem
    karibu.Passwords.failed_password_rules karibu.Passwords.after_rules
    karibu.Passwords.quality_problem karibu.Passwords.special_characters
    karibu.Passwords.common_passwords
forgotten_password_recovered_example =
    forgotten_password_recovered ascii toy settings "asha@karibu.test" "0123456789012345678901"
      "Nyama-Choma1" "weak" 12 9 500 1000 1200 1300 asha team (omega arith) refl refl refl refl refl
      (omega arith) refl refl

locked_asha : User
locked_asha = record asha { locked_until = some 1060; failed_logins = 0 }

login-locked_answers_example :
    (login ascii toy settings "asha@karibu.test" "guess-it" 900
      (record team { users = locked_asha ∷ jane ∷ [] })).1
    ≡ err too_many_attempts
unfolding karibu.Auth.matches karibu.Auth.is_locked strip locked_asha
login-locked_answers_example =
    login-locked_answers ascii toy settings "asha@karibu.test" "guess-it" 900 locked_asha
      (record team { users = locked_asha ∷ jane ∷ [] }) refl refl
