-- ===== src/Billing/Period.antt =====
-- What a charge pays for, and when a subscription is suspended (services/billing.py).
use karibu.Prelude.{
  ℕ, ◌+◌, ◌≤◌, ◌≡◌, refl, some, arith, ltb, leb, length, select, select-update, or_else, Bool-cases,
  inl, inr, ==_iff,
}
use karibu.Subscription.{Subscription, has_access}
use karibu.Billing.{Settings, BillingDb, days, period_for, is_subscription, apply_failed_payment}

-- The period that a charge pays for is a whole billing period and does not end before now.
pub period_for-whole :
    (s : Settings) (sub : Subscription) (now : ℕ)
    → ((period_for s sub now).1 ≡ (period_for s sub now).0 + days s.billing_period_days)
      × (now ≤ (period_for s sub now).1)
unfolding period_for
period_for-whole s sub now = ground arith

-- Paying before the trial ends loses none of the days promised: the new period starts no earlier
-- than the end of the trial, and no earlier than the end of the paid period, where there is one.
pub period_for-keeps_promise :
    (s : Settings) (sub : Subscription) (now trial_end : ℕ)
    → sub.trial_ends_at ≡ some trial_end
    → now ≤ trial_end
    → (trial_end ≤ (period_for s sub now).0)
      × (or_else sub.current_period_end now ≤ (period_for s sub now).0)
unfolding period_for
period_for-keeps_promise s sub now trial_end same h = ground arith

-- A payment that failed counts one attempt on the stored subscription, which keeps its access
-- exactly while the schedule of retries has an entry for the attempts made.
pub apply_failed_payment_dunning :
    (s : Settings) (sub : Subscription) (now later : ℕ) (db : BillingDb)
    → select (is_subscription sub.id) db.subscriptions ≡ some sub
    → (sub' : Subscription) × (select
          (is_subscription sub.id)
          (apply_failed_payment s sub now db).subscriptions
        ≡ some sub')
      × (sub'.failed_attempts ≡ sub.failed_attempts + 1)
      × (has_access sub' later ≡ ltb (sub.failed_attempts + 1) (length s.dunning_retry_hours))
unfolding apply_failed_payment has_access
apply_failed_payment_dunning s sub now later db found =
    let same_id = (==_iff sub.id sub.id).1 refl in
    elim (Bool-cases (leb (length s.dunning_retry_hours) (sub.failed_attempts + 1))) [
      | inl over ↦ rw over (
        _,
        select-update (is_subscription sub.id) _ db.subscriptions sub found same_id,
        refl,
        ground arith,
      )
      | inr left ↦ rw left (
        _,
        select-update (is_subscription sub.id) _ db.subscriptions sub found same_id,
        refl,
        ground arith,
      )
    ]
