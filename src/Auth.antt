-- ===== src/Auth.antt =====
-- routers/auth.py: sign-in with its lockout, links by e-mail, and changes of password. What the
-- code takes from libraries is the record `Crypto`; a link token is told by its stored hash, and the
-- salted hash of a new password is an argument. `login` commits before it raises, so it returns the
-- new state also when it refuses.
pub mod Rows
pub mod Lockout
pub mod Recovery
use karibu.Prelude.{
  ℕ, ◌+◌, ◌*◌, ◌≡◌, String, Bool, true, false, ◌&&◌, ◌||◌, not, Option, none, some, List, [], ◌∷◌,
  ◌++◌, ltb, leb, ◌==◌, str_eq, if◌then◌else◌, select, select_all, update, is_some, is_id, is_empty,
  strip,
}
use karibu.Api.{
  Result, ok, err, ◌>>=◌, ◌>>◌, raise_if, or_raise, invalid_credentials, too_many_attempts,
  account_inactive, email_unconfirmed, invalid_link, link_expired, weak_password,
  wrong_current_password, password_unchanged, account_not_found, invalid_token_type,
  session_expired, current_password_required, current_password_incorrect,
}
use karibu.Access.{User}
use karibu.Accounts.{
  Accounts, AuditLog, AuditAction, user_login, password_changed, password_reset, is_user,
}
use karibu.Passwords.{Unicode, password_problem}

-- passlib's `verify`, and the hash that `hash_link_token` takes of a token that it has stripped
pub record Crypto : Type 0 where
  pub verify : String → ℕ → Bool
  pub sha256 : String → ℕ

-- the settings of core/config.py that these handlers read
pub record LockoutSettings : Type 0 where
  pub threshold : ℕ
  pub minutes : ℕ

-- `if x:` of a column of text
abbrev pub is_given : Option String → Bool
is_given none = false
is_given (some s) = not (is_empty s)

abbrev pub is_text : Option String → String → Bool
is_text none s = false
is_text (some t) s = str_eq t s

-- `or_(User.email == identifier.lower(), User.phone == identifier)`
unfoldable pub matches : Unicode → String → User → Bool
matches py identifier u = is_text u.email (py.lower identifier) || is_text u.phone identifier

-- a wrong password, counted against one account
unfoldable pub fail_login : LockoutSettings → ℕ → User → User
fail_login s now c =
    let over = leb s.threshold (c.failed_logins + 1) in
    record c {
      locked_until = if over then some (now + s.minutes * 60) else c.locked_until;
      failed_logins = if over then 0 else c.failed_logins + 1;
    }

-- `user.locked_until and now < user.locked_until`
unfoldable pub is_locked : ℕ → User → Bool
is_locked now u = elim u.locked_until [ none ↦ false | some t ↦ ltb now t ]

-- `if user.failed_logins or user.locked_until:` and what it guards
unfoldable pub clear_lockout : User → User
clear_lockout u = record u { failed_logins = 0; locked_until = none }

abbrev audit_row : AuditAction → User → AuditLog
audit_row action user = record {
  action = action;
  actor_id = some user.id;
  actor_email = user.email;
  restaurant_id = user.restaurant_id;
}

-- a changed row and the audit row of the change
unfoldable pub record_change : AuditAction → User → Accounts → Accounts
record_change action row db = record {
  users = update (is_user row.id) (λ _. row) db.users;
  audits = db.audits ++ audit_row action row ∷ [];
}

-- `login` once a password has matched; tokens are issued for the row that it returns
unfoldable pub admit : ℕ → User → Result User
unfolding clear_lockout
admit now u = do
  raise_if (is_locked now u) too_many_attempts
  raise_if (not u.is_active) account_inactive
  raise_if ((is_given u.email && not u.email_confirmed) && not u.is_platform_admin)
      email_unconfirmed
  ok (clear_lockout u)

-- the state and the outcome of a sign-in that was admitted or refused
unfoldable pub signed_in : Result User → Accounts → Accounts × Result User
signed_in (err e) db = (db, err e)
signed_in (ok row) db = (record_change user_login row db, ok row)

-- `for c in candidates:` with their commit
unfoldable pub count_failure : Unicode → LockoutSettings → String → ℕ → Accounts → Accounts
count_failure py s identifier now db = record db {
  users = update (matches py identifier) (fail_login s now) db.users;
}

-- what follows `next(…)`, on the account whose password matched, if any
unfoldable pub on_match :
    Unicode → LockoutSettings → String → ℕ → Accounts → Option User → Accounts × Result User
on_match py s key now db none = (count_failure py s key now db, err invalid_credentials)
on_match py s key now db (some u) = signed_in (admit now u) db

-- what `login` does with the accounts that the identifier finds
unfoldable pub try_candidates :
    Unicode
    → Crypto
    → LockoutSettings
    → String
    → String
    → ℕ
    → Accounts
    → List User
    → Accounts × Result User
try_candidates py lib s key password now db [] = (db, err invalid_credentials)
try_candidates py lib s key password now db (c ∷ cs) =
    on_match py s key now db (select (λ (u : User). lib.verify password u.password_hash) (c ∷ cs))

-- `login`
unfoldable pub login :
    Unicode → Crypto → LockoutSettings → String → String → ℕ → Accounts → Accounts × Result User
login py lib s identifier password now db =
    try_candidates py lib s (strip identifier) password now db
      (select_all (matches py (strip identifier)) db.users)

-- `hash_link_token`
unfoldable pub hash_link_token : Crypto → String → ℕ
hash_link_token lib token = lib.sha256 (strip token)

-- `verify_link_token`
unfoldable pub verify_link_token : Crypto → String → Option ℕ → Bool
unfolding hash_link_token
verify_link_token lib token token_hash =
    is_some token_hash && not (is_empty token) && is_id token_hash (hash_link_token lib token)

-- `verify_email`; the time of the request is `now`
unfoldable pub confirm_row : User → User
confirm_row u = record u {
  email_confirmed = true;
  email_token = none;
  email_token_expires = none;
  email_token_attempts = 0;
}

-- `expires and now > expires`
abbrev pub is_expired : Option ℕ → ℕ → Bool
is_expired none now = false
is_expired (some t) now = ltb t now

unfoldable pub verify_email : Crypto → String → ℕ → Accounts → Result (Accounts × User)
unfolding hash_link_token
verify_email lib text now db = do
  let token = strip text
  user ←
      or_raise (select (λ (u : User). is_id u.email_token (hash_link_token lib token)) db.users)
        invalid_link
  raise_if (not (verify_link_token lib token user.email_token)) invalid_link
  raise_if (is_expired user.email_token_expires now) link_expired
  ok (record_change AuditAction.email_confirmed (confirm_row user) db, confirm_row user)

-- the link of one hour
unfoldable pub ask_row : ℕ → ℕ → User → User
ask_row token_hash now u = record u {
  reset_token = some token_hash;
  reset_token_expires = some (now + 3600);
}

-- what `forgot_password` does with the account it has found, if any
unfoldable pub ask_reset : ℕ → ℕ → Accounts → Option User → Accounts
unfolding ask_row
ask_reset token_hash now db none = db
ask_reset token_hash now db (some user) =
    if user.is_active
    then record db { users = update (is_user user.id) (λ _. ask_row token_hash now user) db.users }
    else db

-- `forgot_password`; it answers the same whatever it finds
unfoldable pub forgot_password : Unicode → String → ℕ → ℕ → Accounts → Accounts
forgot_password py email token_hash now db =
    ask_reset token_hash now db
      (select (λ (u : User). is_text u.email (py.lower (strip email))) db.users)

-- `not expires or expires < now`
abbrev pub is_over : Option ℕ → ℕ → Bool
is_over none now = true
is_over (some t) now = ltb t now

-- the row that a reset writes
unfoldable pub reset_by_link : ℕ → User → User
reset_by_link password_hash u = record u {
  password_hash = password_hash;
  reset_token = none;
  reset_token_expires = none;
  email_confirmed = true;
  token_version = u.token_version + 1;
  failed_logins = 0;
  locked_until = none;
}

abbrev pub holds_reset : ℕ → User → Bool
holds_reset token_hash u = is_id u.reset_token token_hash

-- `reset_password`; `password_hash` is the hash of the new password
unfoldable pub reset_password :
    Unicode → Crypto → String → String → ℕ → ℕ → Accounts → Result Accounts
unfolding hash_link_token
reset_password py lib token password password_hash now db = do
  raise_if (is_some (password_problem py password)) weak_password
  user ← or_raise (select (holds_reset (hash_link_token lib token)) db.users) invalid_link
  raise_if (not (verify_link_token lib token user.reset_token)) invalid_link
  raise_if (is_over user.reset_token_expires now) invalid_link
  raise_if (not user.is_active) invalid_link
  ok (record_change password_reset (reset_by_link password_hash user) db)

-- `refresh`, given the kind, the user and the version that the token names
unfoldable pub refresh : Bool → Option User → Option ℕ → Result User
refresh is_refresh found tv = do
  raise_if (not is_refresh) invalid_token_type
  user ← or_raise found account_not_found
  raise_if (not user.is_active) account_not_found
  raise_if (not (is_id tv user.token_version)) session_expired
  ok user

-- the row that a change of password writes
unfoldable pub change_row : ℕ → User → User
change_row password_hash u = record u {
  password_hash = password_hash;
  must_change_password = false;
  token_version = u.token_version + 1;
}

-- `change_password`, for the user of the session
unfoldable pub change_password :
    Unicode → Crypto → String → String → ℕ → User → Accounts → Result (Accounts × User)
change_password py lib current new password_hash user db = do
  raise_if (not (lib.verify current user.password_hash)) wrong_current_password
  raise_if (is_some (password_problem py new)) weak_password
  raise_if (str_eq new current) password_unchanged
  ok (
    record_change password_changed (change_row password_hash user) db,
    change_row password_hash user,
  )

-- `UpdateProfileRequest`, without the address of the picture
pub record UpdateProfileRequest : Type 0 where
  pub full_name : Option String
  pub phone : Option String
  pub password : Option String
  pub current_password : Option String

-- the columns that `update_me` may leave as they are
unfoldable pub edit_profile : UpdateProfileRequest → User → User
edit_profile body u = record u {
  full_name = elim body.full_name [ none ↦ u.full_name | some s ↦ s ];
  phone = elim body.phone [ none ↦ u.phone | some s ↦ some s ];
}

-- `if body.password:` and what it guards
unfoldable pub new_password :
    Unicode → Crypto → UpdateProfileRequest → ℕ → User → User → Result User
new_password py lib body password_hash user u = elim body.password [
  | none ↦ ok u
  | some password ↦ if is_empty password then ok u else do
    raise_if (not (is_given body.current_password)) current_password_required
    raise_if
        (elim body.current_password [
          | none ↦ true
          | some current ↦ not (lib.verify current user.password_hash)
        ])
        current_password_incorrect
    raise_if (is_some (password_problem py password)) weak_password
    ok (record u { password_hash = password_hash; token_version = u.token_version + 1 })
]

-- `update_me`, for the user of the session; it writes no audit row
unfoldable pub update_me :
    Unicode → Crypto → UpdateProfileRequest → ℕ → User → Accounts → Result (Accounts × User)
unfolding edit_profile new_password
update_me py lib body password_hash user db = do
  row ← new_password py lib body password_hash user (edit_profile body user)
  ok (record db { users = update (is_user row.id) (λ _. row) db.users }, row)
