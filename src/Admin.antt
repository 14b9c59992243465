-- ===== src/Admin.antt =====
-- routers/admin.py: what the operator of the platform writes, with the audit rows but for their
-- texts. The views of the operator write nothing and are left out, but for the overview.
pub mod Actions
pub mod Terms
use karibu.Prelude.{
  ℕ, ◌+◌, ◌*◌, Bool, true, false, Option, none, some, List, [], ◌∷◌, ◌++◌, ltb, ◌==◌, if◌then◌else◌,
  select,
}
use karibu.Api.{Result, ok, ◌>>=◌, or_raise, unknown_restaurant, no_subscription}
use karibu.Access.{User, require_platform_admin}
use karibu.Accounts.{
  AuditAction, AuditLog, admin_trial_extended, admin_month_comped, admin_suspended,
  admin_reactivated,
}
use karibu.Subscription.{Subscription, SubscriptionStatus}
use karibu.Billing.{BillingDb, Restaurant, days, is_restaurant, save_subscription, set_active}

pub record Platform : Type 0 where
  pub billing : BillingDb
  pub audits : List AuditLog

abbrev pub subscription_of : ℕ → Subscription → Bool
subscription_of rid sub = sub.restaurant_id == rid

-- `_get_sub_or_404`
unfoldable pub get_sub_or_404 : BillingDb → ℕ → Result (Restaurant × Subscription)
get_sub_or_404 db rid = do
  restaurant ← or_raise (select (is_restaurant rid) db.restaurants) unknown_restaurant
  sub ← or_raise (select (subscription_of rid) db.subscriptions) no_subscription
  ok (restaurant, sub)

-- `record_audit` with the operator as the actor
unfoldable pub record_audit : AuditAction → User → Restaurant → List AuditLog → List AuditLog
record_audit action admin restaurant audits =
    audits
    ++ record {
      action = action;
      actor_id = some admin.id;
      actor_email = admin.email;
      restaurant_id = restaurant.id;
    }
      ∷ []

-- the changed subscription, `restaurant.is_active`, and the audit row
abbrev pub commit : AuditAction → Bool → Subscription → Restaurant → User → Platform → Platform
commit action on sub restaurant admin p = record {
  billing = save_subscription sub (set_active restaurant.id on p.billing);
  audits = record_audit action admin restaurant p.audits;
}

-- the later of a time, where there is one, and now
abbrev pub from_now : Option ℕ → ℕ → ℕ
from_now none now = now
from_now (some t) now = if ltb t now then now else t

unfoldable pub with_trial : ℕ → ℕ → Subscription → Subscription
with_trial n now sub = record sub {
  trial_ends_at = some (from_now sub.trial_ends_at now + days n);
  status = SubscriptionStatus.trialing;
}

-- `extend_trial`
unfoldable pub extend_trial : ℕ → ℕ → User → ℕ → Platform → Result Platform
extend_trial rid n admin now p = do
  operator ← require_platform_admin admin
  found ← get_sub_or_404 p.billing rid
  ok (commit admin_trial_extended true (with_trial n now found.1) found.0 operator p)

-- a period of 30 days, paid by nobody
unfoldable pub with_period : ℕ → ℕ → Subscription → Subscription
with_period start now sub = record sub {
  status = SubscriptionStatus.active;
  current_period_start = some now;
  current_period_end = some (start + days 30);
  failed_attempts = 0;
  next_retry_at = none;
}

-- `comp_month`
unfoldable pub comp_month : ℕ → User → ℕ → Platform → Result Platform
comp_month rid admin now p = do
  operator ← require_platform_admin admin
  found ← get_sub_or_404 p.billing rid
  let start = from_now found.1.current_period_end now
  ok (commit admin_month_comped true (with_period start now found.1) found.0 operator p)

unfoldable pub as_suspended : Subscription → Subscription
as_suspended sub = record sub { status = SubscriptionStatus.suspended; next_retry_at = none }

-- `suspend`
unfoldable pub suspend : ℕ → User → Platform → Result Platform
suspend rid admin p = do
  operator ← require_platform_admin admin
  found ← get_sub_or_404 p.billing rid
  ok (commit admin_suspended false (as_suspended found.1) found.0 operator p)

-- `reactivate`
unfoldable pub reactivate : ℕ → User → ℕ → Platform → Result Platform
reactivate rid admin now p = do
  operator ← require_platform_admin admin
  found ← get_sub_or_404 p.billing rid
  ok (commit admin_reactivated true (with_period now now found.1) found.0 operator p)

-- What the operator may do to the restaurant with an id.
pub data AdminAction : Type 0 where
  extends : ℕ → ℕ → AdminAction
  comps : ℕ → AdminAction
  suspends : ℕ → AdminAction
  reactivates : ℕ → AdminAction

abbrev pub target : AdminAction → ℕ
target (extends rid n) = rid
target (comps rid) = rid
target (suspends rid) = rid
target (reactivates rid) = rid

unfoldable pub handle_admin : AdminAction → User → ℕ → Platform → Result Platform
handle_admin (extends rid n) admin now p = extend_trial rid n admin now p
handle_admin (comps rid) admin now p = comp_month rid admin now p
handle_admin (suspends rid) admin now p = suspend rid admin p
handle_admin (reactivates rid) admin now p = reactivate rid admin now p
