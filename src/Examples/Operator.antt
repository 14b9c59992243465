-- ===== src/Examples/Operator.antt =====
-- Examples of the theorems about the operator of the platform (routers/admin.py): a café that pays
-- for itself and another tenant.
use karibu.Prelude.{◌+◌, ◌≡◌, refl, true, none, some, [], ◌∷◌, ◌++◌, arith, ltb, leb, select}
use karibu.Api.{ok, err, after, subscription_inactive}
use karibu.Access.{User, require_subscription}
use karibu.Accounts.{AuditLog}
use karibu.Subscription.{Subscription, SubscriptionStatus, has_access, is_renewal_due}
use karibu.Billing.{days}
use karibu.Admin.{
  Platform, subscription_of, from_now, extends, suspends, handle_admin, extend_trial, comp_month,
  suspend, reactivate,
}
use karibu.Admin.Actions.{handle_admin_audited}
use karibu.Admin.Terms.{extend_trial_replaces, comp_month_due, suspend_until_reactivated}
use karibu.Examples.{boss, waiter}

abbrev operator : User
operator = record boss { id = 9; restaurant_id = 3; is_platform_admin = true }

-- paid up to day 100, its trial long over
abbrev paying : Subscription
paying = record {
  id = 5;
  restaurant_id = 1;
  status = SubscriptionStatus.active;
  price_cents = 250000;
  currency = "KES";
  trial_ends_at = some 604800;
  current_period_start = some 6048000;
  current_period_end = some 8640000;
  failed_attempts = 0;
  next_retry_at = none;
}

-- on trial up to day 160
abbrev trying_out : Subscription
trying_out = record paying {
  id = 6;
  restaurant_id = 2;
  status = SubscriptionStatus.trialing;
  trial_ends_at = some 13824000;
  current_period_start = none;
  current_period_end = none;
}

abbrev pub platform : Platform
platform = record {
  billing = record {
    subscriptions = paying ∷ trying_out ∷ [];
    charges = [];
    callbacks = [];
    restaurants =
        record { id = 1; billing_phone = some "254700000001"; is_active = true }
        ∷ record { id = 2; billing_phone = none; is_active = true }
        ∷ [];
    users = boss ∷ [];
  };
  audits = [];
}

abbrev stopped : Platform
stopped = after (suspend 1 operator) platform

abbrev restarted : Platform
restarted = after (λ p. reactivate 1 operator 6912000 p) stopped

handle_admin_audited_example :
    (operator.is_platform_admin ≡ true)
    × ((row : AuditLog) × ((after (handle_admin (suspends 1) operator 6912000) platform).audits
          ≡ platform.audits ++ row ∷ [])
        × (row.actor_id ≡ some operator.id)
        × (row.restaurant_id ≡ 1))
    × (select
          (subscription_of 2)
          (after (handle_admin (suspends 1) operator 6912000) platform).billing.subscriptions
        ≡ select (subscription_of 2) platform.billing.subscriptions)
unfolding handle_admin suspend karibu.Access.require_platform_admin karibu.Admin.get_sub_or_404
handle_admin_audited_example =
    handle_admin_audited (suspends 1) operator 6912000 2 platform _
      (((λ e. omega (arith, e)), tt), (tt, tt)) (λ e. omega (arith, e)) refl

extend_trial_replaces_example :
    (old : Subscription) × (new : Subscription) × (select
        (subscription_of 1)
        platform.billing.subscriptions
      ≡ some old)
    × (select
          (subscription_of 1)
          (after (extend_trial 1 7 operator 6912000) platform).billing.subscriptions
        ≡ some new)
    × (new.current_period_end ≡ old.current_period_end)
    × (has_access new 8000000 ≡ ltb 8000000 (from_now old.trial_ends_at 6912000 + days 7))
unfolding extend_trial karibu.Access.require_platform_admin karibu.Admin.get_sub_or_404
extend_trial_replaces_example = extend_trial_replaces 1 7 6912000 8000000 operator platform _ refl

comp_month_due_example :
    (old : Subscription) × (new : Subscription) × (select
        (subscription_of 2)
        platform.billing.subscriptions
      ≡ some old)
    × (select
          (subscription_of 2)
          (after (comp_month 2 operator 6912000) platform).billing.subscriptions
        ≡ some new)
    × (has_access new 10000000 ≡ true)
    × (is_renewal_due new 10000000
        ≡ leb (from_now old.current_period_end 6912000 + days 30) 10000000)
unfolding comp_month karibu.Access.require_platform_admin karibu.Admin.get_sub_or_404
comp_month_due_example = comp_month_due 2 6912000 10000000 operator platform _ refl

suspend_until_reactivated_example :
    (require_subscription (select (subscription_of 1) stopped.billing.subscriptions) 7000000 waiter
      ≡ err subscription_inactive)
    × (require_subscription
          (select (subscription_of 1) restarted.billing.subscriptions)
          7000000
          waiter
        ≡ ok waiter)
unfolding suspend reactivate karibu.Admin.as_suspended karibu.Access.require_platform_admin
    karibu.Admin.get_sub_or_404
suspend_until_reactivated_example =
    suspend_until_reactivated 1 6912000 7000000 operator waiter platform stopped restarted refl refl
      refl refl
