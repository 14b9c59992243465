-- ===== src/Admin/Terms.antt =====
-- What the actions of the operator (routers/admin.py) do to the access of a restaurant.
use karibu.Prelude.{
  ℕ, ◌+◌, ◌≡◌, refl, true, false, some, arith, ltb, leb, select, select-test, select-rewritten,
}
use mathlib.Core.Path.{subst}
use karibu.Api.{ok, err, subscription_inactive}
use karibu.Access.{User, require_subscription, get_settled_user}
use karibu.Subscription.{Subscription, has_access, is_renewal_due, access_ok}
use karibu.Billing.{days, is_subscription}
use karibu.Admin.{
  Platform, subscription_of, from_now, with_trial, extend_trial, with_period, comp_month,
  as_suspended, suspend, reactivate, AdminAction, extends, comps, suspends, reactivates, target,
}
use karibu.Admin.Actions.{Acts, acts}

-- The subscription that is found afterwards is the edited one.
module _ (a : AdminAction) (admin : User) (p p' : Platform) (f : Subscription → Subscription)
    (keeps : (s : Subscription) → ((f s).id ≡ s.id) × ((f s).restaurant_id ≡ s.restaurant_id))
    (acted : Acts a admin f p p') where
  edited : select (subscription_of (target a)) p'.billing.subscriptions ≡ some (f acted.sub)
  edited =
      let (same_id, same_home) = keeps acted.sub in
      let home =
        select-test (subscription_of (target a)) p.billing.subscriptions acted.sub acted.found in
      subst
        (λ (q : Platform).
          select (subscription_of (target a)) q.billing.subscriptions ≡ some (f acted.sub))
        acted.written
        (select-rewritten (subscription_of (target a)) (is_subscription (f acted.sub).id)
          (f acted.sub) acted.sub p.billing.subscriptions acted.found (ground arith) (ground arith))

-- After the trial of a restaurant is extended, it has access exactly before the new end of the
-- trial, whatever period it had paid for, whose end stays stored.
pub extend_trial_replaces :
    (rid n now at : ℕ) (admin : User) (p p' : Platform)
    → extend_trial rid n admin now p ≡ ok p'
    → (old : Subscription) × (new : Subscription) × (select
          (subscription_of rid)
          p.billing.subscriptions
        ≡ some old)
      × (select (subscription_of rid) p'.billing.subscriptions ≡ some new)
      × (new.current_period_end ≡ old.current_period_end)
      × (has_access new at ≡ ltb at (from_now old.trial_ends_at now + days n))
unfolding extend_trial with_trial has_access
extend_trial_replaces rid n now at admin p p' done =
    let acted = acts (extends rid n) admin p p' _ true (with_trial n now) done in
    (
      acted.sub,
      with_trial n now acted.sub,
      acted.found,
      edited (extends rid n) admin p p' (with_trial n now) (λ s. (refl, refl)) acted,
      refl,
      refl,
    )

-- A free month gives access, and the next renewal is due thirty days after the later of now and
-- the end of the paid period, wherever a trial ends.
pub comp_month_due :
    (rid now at : ℕ) (admin : User) (p p' : Platform)
    → comp_month rid admin now p ≡ ok p'
    → (old : Subscription) × (new : Subscription) × (select
          (subscription_of rid)
          p.billing.subscriptions
        ≡ some old)
      × (select (subscription_of rid) p'.billing.subscriptions ≡ some new)
      × (has_access new at ≡ true)
      × (is_renewal_due new at ≡ leb (from_now old.current_period_end now + days 30) at)
unfolding comp_month with_period has_access is_renewal_due
comp_month_due rid now at admin p p' done =
    let edit : Subscription → Subscription =
      λ s. with_period (from_now s.current_period_end now) now s in
    let acted = acts (comps rid) admin p p' _ true edit done in
    (
      acted.sub,
      edit acted.sub,
      acted.found,
      edited (comps rid) admin p p' edit (λ s. (refl, refl)) acted,
      refl,
      refl,
    )

-- After a restaurant is suspended the guard of a subscription refuses its users at any time, but
-- for platform administrators and those who must change their password, and after it is
-- reactivated it lets them in again.
pub suspend_until_reactivated :
    (rid now at : ℕ) (admin user : User) (p p' p'' : Platform)
    → user.is_platform_admin ≡ false
    → user.must_change_password ≡ false
    → suspend rid admin p ≡ ok p'
    → reactivate rid admin now p' ≡ ok p''
    → (require_subscription (select (subscription_of rid) p'.billing.subscriptions) at user
        ≡ err subscription_inactive)
      × (require_subscription (select (subscription_of rid) p''.billing.subscriptions) at user
          ≡ ok user)
unfolding suspend reactivate as_suspended with_period has_access require_subscription
    get_settled_user access_ok
suspend_until_reactivated rid now at admin user p p' p'' plain settled stopped restarted =
    let first = acts (suspends rid) admin p p' _ false as_suspended stopped in
    let second = acts (reactivates rid) admin p' p'' _ true (with_period now now) restarted in
    let off = edited (suspends rid) admin p p' as_suspended (λ s. (refl, refl)) first in
    let back =
      edited (reactivates rid) admin p' p'' (with_period now now) (λ s. (refl, refl)) second in
    (rw (off, settled, plain) refl, rw (back, settled, plain) refl)
