-- ===== src/Staff.antt =====
-- routers/staff.py: a manager's accounts for the people who work there. The random code of an
-- account appears as its stored hash, an argument.
pub mod Rank
pub mod Sessions
pub mod Hiring
use karibu.Prelude.{
  ℕ, ◌+◌, String, Bool, true, false, ◌&&◌, ◌||◌, not, Option, none, some, List, [], ◌∷◌, ◌++◌, leb,
  ◌==◌, str_eq, if◌then◌else◌, select, update, is_some, is_empty, strip,
}
use karibu.Api.{
  Result, ok, ◌>>=◌, ◌>>◌, raise_if, or_raise, staff_not_found, unknown_role, role_too_high,
  identifier_required, email_taken, phone_taken, own_deactivation, own_role, own_reset,
  reset_not_permitted,
}
use karibu.Accounts.{Accounts, AuditLog, staff_created, staff_deactivated, is_user}
use karibu.Access.{User, UserRole, rank, parse_role, require_roles, managers}

-- `StaffCreate` and `StaffUpdate` of schemas/staff.py
pub record StaffCreate : Type 0 where
  pub full_name : String
  pub role : String
  pub email : Option String
  pub phone : Option String

pub record StaffUpdate : Type 0 where
  pub full_name : Option String
  pub role : Option String
  pub is_active : Option Bool

abbrev pub works_at : ℕ → ℕ → User → Bool
works_at key rid u = u.id == key && u.restaurant_id == rid

-- `_get_staff`
unfoldable pub get_staff : Accounts → User → ℕ → Result User
get_staff db manager key =
    or_raise (select (works_at key manager.restaurant_id) db.users) staff_not_found

-- `_assert_may_assign`; it returns the role that the text names
unfoldable pub assert_may_assign : User → String → Result UserRole
assert_may_assign actor text = do
  role ← or_raise (parse_role text) unknown_role
  raise_if (leb (rank actor.role) (rank role)) role_too_high
  ok role

-- `x.strip() if x else None`
unfoldable pub given_text : Option String → Option String
given_text none = none
given_text (some s) = if is_empty s then none else some (strip s)

-- `if x:` of a text
abbrev pub is_given : Option String → Bool
is_given none = false
is_given (some s) = not (is_empty s)

abbrev same_text : Option String → Option String → Bool
same_text (some a) (some b) = str_eq a b
same_text _ _ = false

abbrev pub has_email : Option String → User → Bool
has_email email u = same_text u.email email

abbrev pub has_phone : ℕ → Option String → User → Bool
has_phone rid phone u = u.restaurant_id == rid && same_text u.phone phone

-- the `User(…)` of `create_staff`, with its password set
unfoldable pub new_staff :
    StaffCreate → UserRole → Option String → Option String → User → ℕ → ℕ → User
new_staff body role email phone user key code_hash = record {
  id = key;
  full_name = strip body.full_name;
  email = email;
  phone = phone;
  password_hash = code_hash;
  role = role;
  must_change_password = true;
  invited_by_id = some user.id;
  is_active = true;
  restaurant_id = user.restaurant_id;
  token_version = 0;
  failed_logins = 0;
  locked_until = none;
  is_platform_admin = false;
  email_confirmed = true;
  email_token = none;
  email_token_expires = none;
  email_token_attempts = 0;
  reset_token = none;
  reset_token_expires = none;
}

-- `str.lower`, which is Python's own
module _ (lower : String → String) where
  -- `body.email.strip().lower() if body.email else None`
  unfoldable pub given_email : Option String → Option String
  given_email email = elim (given_text email) [ none ↦ none | some s ↦ some (lower s) ]

  -- `create_staff`, up to the e-mail that it sends after the commit
  unfoldable pub create_staff : StaffCreate → User → ℕ → ℕ → Accounts → Result Accounts
  create_staff body user key code_hash db = do
    caller ← require_roles managers user
    role ← assert_may_assign caller body.role
    let email = given_email body.email
    let phone = given_text body.phone
    raise_if (not (is_given email || is_given phone)) identifier_required
    raise_if (is_given email && is_some (select (has_email email) db.users)) email_taken
    raise_if (is_given phone && is_some (select (has_phone caller.restaurant_id phone) db.users))
        phone_taken
    ok (record {
      users = db.users ++ new_staff body role email phone caller key code_hash ∷ [];
      audits =
          db.audits
          ++ record {
            action = staff_created;
            actor_id = some caller.id;
            actor_email = caller.email;
            restaurant_id = caller.restaurant_id;
          }
            ∷ [];
    })

-- `staff.role == text`
abbrev names_role : UserRole → Option UserRole → Bool
names_role role none = false
names_role role (some r) = rank r == rank role

-- `body.role is not None and body.role != staff.role`
unfoldable pub changes_role : StaffUpdate → User → Bool
unfolding rank
changes_role body staff = elim body.role [
  | none ↦ false
  | some text ↦ not (names_role staff.role (parse_role text))
]

-- `body.is_active is False`
abbrev pub is_false : Option Bool → Bool
is_false none = false
is_false (some b) = not b

unfoldable pub assigned_role : StaffUpdate → User → User → Result UserRole
assigned_role body user staff = elim body.role [
  | none ↦ ok staff.role
  | some text ↦
      if names_role staff.role (parse_role text) then ok staff.role else assert_may_assign user text
]

abbrev given_name : Option String → String → String
given_name none old = old
given_name (some s) old = strip s

abbrev given_bool : Option Bool → Bool → Bool
given_bool none old = old
given_bool (some b) old = b

-- `body.is_active is not None and body.is_active != staff.is_active`, where it is False
abbrev pub deactivates : StaffUpdate → User → Bool
deactivates body staff = staff.is_active && is_false body.is_active

-- the assignments of `update_staff`
unfoldable pub edit_staff : StaffUpdate → UserRole → User → User
edit_staff body role staff = record staff {
  role = role;
  full_name = given_name body.full_name staff.full_name;
  is_active = given_bool body.is_active staff.is_active;
  token_version = if deactivates body staff then staff.token_version + 1 else staff.token_version;
}

-- `update_staff`
unfoldable pub update_staff : ℕ → StaffUpdate → User → Accounts → Result Accounts
update_staff key body user db = do
  caller ← require_roles managers user
  staff ← get_staff db caller key
  raise_if (staff.id == caller.id && is_false body.is_active) own_deactivation
  raise_if (staff.id == caller.id && changes_role body staff) own_role
  role ← assigned_role body caller staff
  ok (record {
    users = update (is_user staff.id) (λ _. edit_staff body role staff) db.users;
    audits =
        if deactivates body staff
        then db.audits
          ++ record {
            action = staff_deactivated;
            actor_id = some caller.id;
            actor_email = caller.email;
            restaurant_id = caller.restaurant_id;
          }
            ∷ []
        else db.audits;
  })

-- what `reset_staff_password` writes
unfoldable pub reset_row : ℕ → User → User
reset_row code_hash staff = record staff {
  password_hash = code_hash;
  must_change_password = true;
  token_version = staff.token_version + 1;
  failed_logins = 0;
  locked_until = none;
}

-- `reset_staff_password`
unfoldable pub reset_staff_password : ℕ → User → ℕ → Accounts → Result Accounts
reset_staff_password key user code_hash db = do
  caller ← require_roles managers user
  staff ← get_staff db caller key
  raise_if (staff.id == caller.id) own_reset
  raise_if (leb (rank caller.role) (rank staff.role)) reset_not_permitted
  ok (record db { users = update (is_user staff.id) (λ _. reset_row code_hash staff) db.users })
