-- ===== src/Signup.antt =====
-- routers/auth.py: `register`, which opens a restaurant with its manager, its subscription on trial
-- and an audit row. The ids, the hash of the link and the salted hash of the password are arguments;
-- what the handler sends by e-mail after its commit is left out.
pub mod Again
use karibu.Prelude.{
  ℕ, ◌+◌, ◌*◌, String, Bool, true, false, ◌&&◌, not, Option, none, some, List, [], ◌∷◌, ◌++◌,
  select, update, is_some, strip, is_empty, if◌then◌else◌,
}
use karibu.Api.{Result, ok, err, ◌>>=◌, ◌>>◌, raise_if, weak_password, email_taken}
use karibu.Access.{User, UserRole}
use karibu.Accounts.{AuditLog, user_registered, is_user}
use karibu.Passwords.{Unicode, password_problem}
use karibu.Auth.{Crypto, is_text}
use karibu.Billing.{Settings, Restaurant, BillingDb, or_text, start_trial}
use karibu.Admin.{Platform}

-- `RegisterRequest`, without the name of the restaurant
pub record RegisterRequest : Type 0 where
  pub full_name : String
  pub email : String
  pub password : String
  pub phone : Option String
  pub billing_phone : Option String

-- what a request draws: the ids of the three rows, and the two hashes
pub record Draws : Type 0 where
  pub restaurant_id : ℕ
  pub user_id : ℕ
  pub subscription_id : ℕ
  pub token_hash : ℕ
  pub password_hash : ℕ

-- `_set_confirmation_token`, with a link of so many hours
unfoldable pub set_confirmation_token : ℕ → ℕ → ℕ → User → User
set_confirmation_token hours token_hash now u = record u {
  email_token = some token_hash;
  email_token_expires = some (now + hours * 3600);
  email_token_attempts = 0;
}

-- the `User(…)` of `register`, with its password set
unfoldable pub new_manager : RegisterRequest → String → Draws → User
new_manager body email d = record {
  id = d.user_id;
  full_name = strip body.full_name;
  email = some email;
  phone = body.phone;
  password_hash = d.password_hash;
  role = UserRole.manager;
  must_change_password = false;
  invited_by_id = none;
  is_active = true;
  restaurant_id = d.restaurant_id;
  token_version = 0;
  failed_logins = 0;
  locked_until = none;
  is_platform_admin = false;
  email_confirmed = false;
  email_token = none;
  email_token_expires = none;
  email_token_attempts = 0;
  reset_token = none;
  reset_token_expires = none;
}

-- `Restaurant(name=…)`
abbrev pub new_restaurant : Draws → Restaurant
new_restaurant d = record { id = d.restaurant_id; billing_phone = none; is_active = true }

-- the rows of a new restaurant
unfoldable pub open_restaurant :
    Settings → ℕ → RegisterRequest → String → Draws → ℕ → Platform → Platform
unfolding new_manager set_confirmation_token start_trial
open_restaurant s hours body email d now p =
    let manager = set_confirmation_token hours d.token_hash now (new_manager body email d) in
    let trial =
      start_trial s (new_restaurant d) (or_text body.billing_phone body.phone) d.subscription_id now
        (record p.billing { restaurants = p.billing.restaurants ++ new_restaurant d ∷ [] }) in
    record {
      billing = record trial { users = p.billing.users ++ manager ∷ [] };
      audits =
          p.audits
          ++ record {
            action = user_registered;
            actor_id = none;
            actor_email = some email;
            restaurant_id = d.restaurant_id;
          }
            ∷ [];
    }

-- a signup whose first answer was lost: a fresh link for the same account
unfoldable pub resend : Crypto → ℕ → RegisterRequest → Draws → ℕ → Platform → User → Result Platform
unfolding set_confirmation_token
resend lib hours body d now p existing =
    if not existing.email_confirmed && lib.verify body.password existing.password_hash
    then ok (record p {
      billing = record p.billing {
        users =
            update (is_user existing.id)
              (λ _. set_confirmation_token hours d.token_hash now existing) p.billing.users;
      };
    })
    else err email_taken

-- `register`; `hours` is the setting EMAIL_LINK_HOURS
unfoldable pub register :
    Unicode → Crypto → Settings → ℕ → RegisterRequest → Draws → ℕ → Platform → Result Platform
unfolding resend
register py lib s hours body d now p = do
  let email = py.lower (strip body.email)
  raise_if (is_some (password_problem py body.password)) weak_password
  elim (select (λ (u : User). is_text u.email email) p.billing.users) [
    | some existing ↦ resend lib hours body d now p existing
    | none ↦ ok (open_restaurant s hours body email d now p)
  ]
