-- ===== src/Billing.antt =====
-- services/billing.py: what the engine keeps, the period a charge pays for, and what an outcome does
-- to the subscription. Every operation runs alone, as the lock on the subscription row makes it.
pub mod Charge
pub mod Webhook
pub mod Reconcile
pub mod Routes
pub mod Period
pub mod Terminal
pub mod Once
pub mod Open
pub mod Retry
pub mod Stuck
use karibu.Prelude.{
  ℕ, ◌+◌, ◌*◌, ◌/◌, zero, suc, String, Bool, true, false, ◌&&◌, not, Option, none, some, List, [],
  ◌∷◌, ◌++◌, ltb, leb, ◌==◌, if◌then◌else◌, select, update, length, or_else, is_empty, is_id,
}
use karibu.Access.{User, is_manager}
use karibu.Subscription.{
  Subscription, SubscriptionStatus, BillingCharge, ProcessedCallback, is_open,
}

-- The entries of core/config.py that billing reads.
pub record Settings : Type 0 where
  pub subscription_price_cents : ℕ
  pub subscription_currency : String
  pub trial_days : ℕ
  pub billing_period_days : ℕ
  pub dunning_retry_hours : List ℕ
  pub charge_stale_minutes : ℕ
  pub is_configured : Bool

-- The columns of `Restaurant` that billing uses.
pub record Restaurant : Type 0 where
  pub id : ℕ
  pub billing_phone : Option String
  pub is_active : Bool

-- The tables; `users` stands in the order of `created_at`.
pub record BillingDb : Type 0 where
  pub subscriptions : List Subscription
  pub charges : List BillingCharge
  pub callbacks : List ProcessedCallback
  pub restaurants : List Restaurant
  pub users : List User

abbrev pub is_subscription : ℕ → Subscription → Bool
is_subscription key sub = sub.id == key

abbrev pub is_charge : ℕ → BillingCharge → Bool
is_charge key c = c.id == key

abbrev pub is_restaurant : ℕ → Restaurant → Bool
is_restaurant key r = r.id == key

abbrev pub has_provider_reference : ℕ → BillingCharge → Bool
has_provider_reference ref c = is_id c.provider_reference ref

abbrev pub is_callback : ℕ → ProcessedCallback → Bool
is_callback ref p = p.reference == ref

-- The flush of a changed row.
abbrev pub save_subscription : Subscription → BillingDb → BillingDb
save_subscription sub db = record db {
  subscriptions = update (is_subscription sub.id) (λ _. sub) db.subscriptions;
}

abbrev pub save_charge : BillingCharge → BillingDb → BillingDb
save_charge c db = record db { charges = update (is_charge c.id) (λ _. c) db.charges }

abbrev pub add_charge : BillingCharge → BillingDb → BillingDb
add_charge c db = record db { charges = db.charges ++ c ∷ [] }

-- `restaurant.is_active = on`, where the restaurant exists
abbrev pub set_active : ℕ → Bool → BillingDb → BillingDb
set_active key on db = record db {
  restaurants = update (is_restaurant key) (λ r. record r { is_active = on }) db.restaurants;
}

-- `_owner_for`
unfoldable pub owner_for : List User → ℕ → Option User
owner_for users key = select (λ u. u.restaurant_id == key && is_manager u.role) users

-- `order_by(requested_at.desc())`, then `first()`
newer : BillingCharge → Option BillingCharge → BillingCharge
newer c none = c
newer c (some d) = if ltb c.requested_at d.requested_at then d else c

-- `_open_charge_for`
unfoldable pub open_charge_for : List BillingCharge → ℕ → Option BillingCharge
unfolding newer
open_charge_for [] key = none
open_charge_for (c ∷ cs) key =
    let rest = open_charge_for cs key in
    if c.subscription_id == key && is_open c.status then some (newer c rest) else rest

-- `a or b` on texts
unfoldable pub or_text : Option String → Option String → Option String
or_text none b = b
or_text (some a) b = if is_empty a then b else some a

-- `timedelta(days=…)` in seconds
abbrev pub days : ℕ → ℕ
days n = n * 86400

-- `start_trial`; `new_id` is the id of the new row
unfoldable pub start_trial : Settings → Restaurant → Option String → ℕ → ℕ → BillingDb → BillingDb
start_trial s restaurant phone new_id now db = record db {
  subscriptions =
      db.subscriptions
      ++ record {
        id = new_id;
        restaurant_id = restaurant.id;
        status = SubscriptionStatus.trialing;
        price_cents = s.subscription_price_cents;
        currency = s.subscription_currency;
        trial_ends_at = some (now + days s.trial_days);
        current_period_start = none;
        current_period_end = none;
        failed_attempts = 0;
        next_retry_at = none;
      }
        ∷ [];
  restaurants =
      update (is_restaurant restaurant.id)
        (λ r. record r { billing_phone = or_text phone r.billing_phone }) db.restaurants;
}

later_of : Option ℕ → ℕ → ℕ
later_of none start = start
later_of (some t) start = if ltb start t then t else start

-- `_period_for`: the start and the end
unfoldable pub period_for : Settings → Subscription → ℕ → ℕ × ℕ
unfolding later_of
period_for s sub now =
    let span = days s.billing_period_days in
    let promised = later_of sub.trial_ends_at (or_else sub.current_period_end now) in
    let start = if ltb (promised + span) now then now else promised in (start, start + span)

-- `_idempotency_key`: the subscription, the day of the start, the attempt
unfoldable pub idempotency_key : Subscription → ℕ → ℕ → ℕ × ℕ × ℕ
idempotency_key sub period_start attempt = (sub.id, period_start / 86400, attempt)

-- `_apply_successful_payment`
unfoldable pub apply_successful_payment : Subscription → BillingCharge → BillingDb → BillingDb
apply_successful_payment sub charge db = set_active sub.restaurant_id true (
    save_subscription
      (record sub {
        status = SubscriptionStatus.active;
        current_period_start = some charge.period_start;
        current_period_end = some charge.period_end;
        failed_attempts = 0;
        next_retry_at = none;
      })
      db)

-- `retry_schedule[n]`
unfoldable pub hours_at : List ℕ → ℕ → ℕ
hours_at [] n = 0
hours_at (h ∷ hs) zero = h
hours_at (h ∷ hs) (suc n) = hours_at hs n

-- `_apply_failed_payment`; the index is in range where it is read
unfoldable pub apply_failed_payment : Settings → Subscription → ℕ → BillingDb → BillingDb
apply_failed_payment s sub now db =
    let attempts = sub.failed_attempts + 1 in
    if leb (length s.dunning_retry_hours) attempts
    then set_active sub.restaurant_id false (
        save_subscription
          (record sub {
            status = SubscriptionStatus.suspended;
            failed_attempts = attempts;
            next_retry_at = none;
          })
          db)
    else save_subscription
        (record sub {
          status = SubscriptionStatus.past_due;
          failed_attempts = attempts;
          next_retry_at = some (now + hours_at s.dunning_retry_hours attempts * 3600);
        })
        db
