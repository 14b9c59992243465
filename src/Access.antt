-- ===== src/Access.antt =====
-- Who may call what: models/user.py (roles and their rank) and core/dependencies.py.
pub mod Laws
use karibu.Prelude.{
  ℕ, String, Bool, true, false, ◌&&◌, ◌||◌, not, Option, none, some, List, [], ◌∷◌, ltb, ◌==◌,
  str_eq, if◌then◌else◌, is_id,
}
use karibu.Api.{
  ApiError, Result, ok, err, ◌>>=◌, ◌>>◌, raise_if, or_raise, insufficient_permissions,
  must_change_password, subscription_inactive, not_an_admin, account_disabled, session_expired,
}
use karibu.Subscription.{Subscription, has_access}

pub data UserRole : Type 0 where
  manager cashier waiter : UserRole

-- `UserRole.rank`
unfoldable pub rank : UserRole → ℕ
rank UserRole.manager = 3
rank UserRole.cashier = 2
rank UserRole.waiter = 1

-- A role as a request spells it; `none` is a text outside `UserRole.ALL`.
unfoldable pub parse_role : String → Option UserRole
parse_role s =
    if str_eq s "manager"
    then some UserRole.manager
    else if str_eq s "cashier"
    then some UserRole.cashier
    else if str_eq s "waiter"
    then some UserRole.waiter
    else none

-- `role in UserRole.MANAGERS`
unfoldable pub is_manager : UserRole → Bool
is_manager UserRole.manager = true
is_manager UserRole.cashier = false
is_manager UserRole.waiter = false

-- The columns of a user that the handlers read or write. Ids and stored hashes are only compared,
-- so they are numbers; times are seconds.
pub record User : Type 0 where
  pub id : ℕ
  pub full_name : String
  pub email : Option String
  pub phone : Option String
  pub password_hash : ℕ
  pub role : UserRole
  pub must_change_password : Bool
  pub invited_by_id : Option ℕ
  pub is_active : Bool
  pub restaurant_id : ℕ
  pub token_version : ℕ
  pub failed_logins : ℕ
  pub locked_until : Option ℕ
  pub is_platform_admin : Bool
  pub email_confirmed : Bool
  pub email_token : Option ℕ
  pub email_token_expires : Option ℕ
  pub email_token_attempts : ℕ
  pub reset_token : Option ℕ
  pub reset_token_expires : Option ℕ

-- `get_current_user`, given the row that `db.get(User, payload["sub"])` found and the token's "tv"
unfoldable pub get_current_user : Option User → Option ℕ → Result User
get_current_user found tv = do
  user ← or_raise found account_disabled
  raise_if (not user.is_active) account_disabled
  raise_if (not (is_id tv user.token_version)) session_expired
  ok user

-- `get_settled_user`
unfoldable pub get_settled_user : User → Result User
get_settled_user user = do raise_if user.must_change_password ApiError.must_change_password; ok user

abbrev pub has_role : List UserRole → UserRole → Bool
has_role [] r = false
has_role (a ∷ allowed) r = rank a == rank r || has_role allowed r

-- `require_roles`
unfoldable pub require_roles : List UserRole → User → Result User
unfolding get_settled_user rank
require_roles allowed user = do
  settled ← get_settled_user user
  raise_if (not (has_role allowed settled.role)) insufficient_permissions
  ok settled

abbrev pub managers : List UserRole
managers = UserRole.manager ∷ []

-- `sub and sub.has_access`
abbrev pub grants : Option Subscription → ℕ → Bool
grants none now = false
grants (some sub) now = has_access sub now

-- `require_subscription`, given the caller's subscription row
unfoldable pub require_subscription : Option Subscription → ℕ → User → Result User
unfolding get_settled_user
require_subscription found now user = do
  settled ← get_settled_user user
  raise_if (not settled.is_platform_admin && not (grants found now)) subscription_inactive
  ok settled

-- `require_platform_admin`
unfoldable pub require_platform_admin : User → Result User
require_platform_admin user = do raise_if (not user.is_platform_admin) not_an_admin; ok user
