-- ===== src/Billing/Stuck.antt =====
-- A charge that Paystack refuses at once (services/billing.py, the `except PaystackError` of
-- `initiate_charge`).
use karibu.Prelude.{
  ℕ, ◌+◌, ◌/◌, ◌≡◌, refl, ap, ◌∙◌, String, true, false, Option, none, some, List, [], ◌∷◌, ◌++◌,
  arith, select, select-test, select-append_none, ==_iff, inl, inr, ◌⊎◌,
}
use karibu.Api.{ok}
use karibu.Subscription.{Subscription, BillingCharge, is_open, mark_failed}
use karibu.Billing.{
  Settings, BillingDb, is_subscription, open_charge_for, period_for, idempotency_key,
}
use karibu.Billing.Charge.{
  PushReply, declined, new_charge, attempt_for, same_key, has_key, take_reply, bill_owner,
  insert_charge, reuse_by_key, reuse_open, initiate_charge,
}
use karibu.Billing.Retry.{priced-select}

open_charge_for-closed :
    (key : ℕ) (cs : List BillingCharge) (c : BillingCharge)
    → open_charge_for cs key ≡ none
    → is_open c.status ≡ false
    → open_charge_for (cs ++ c ∷ []) key ≡ none
unfolding open_charge_for
open_charge_for-closed key [] c h t = ground arith
open_charge_for-closed key (x ∷ cs) c h t = ground (arith, open_charge_for-closed key cs c)

same_key_refl : (k : ℕ × ℕ × ℕ) → same_key k k ≡ true
unfolding same_key
same_key_refl (a, b, c) = rw ((==_iff a a).1 refl, (==_iff b b).1 refl, (==_iff c c).1 refl) refl

-- The second request, once its subscription is known.
declined_again :
    (s : Settings) (key : ℕ) (reply : PushReply) (text : String) (sub : Subscription)
    (charge charge' c : BillingCharge) (now later : ℕ) (db db' : BillingDb)
    (found : Option BillingCharge)
    → open_charge_for db.charges key ≡ none
    → charge.idempotency_key ≡ charge'.idempotency_key
    → sub.id ≡ key
    → select (has_key charge.idempotency_key) db.charges ≡ found
    → reuse_by_key found s (declined text) sub charge now db ≡ ok (c, db')
    → (open_charge_for db'.charges key ≡ none)
      × (select (has_key charge'.idempotency_key) db'.charges ≡ some c)
unfolding reuse_by_key insert_charge bill_owner take_reply mark_failed is_open
declined_again s key reply text sub charge charge' c now later db db' (some d) no_open keys own e
      h =
    grind arith
declined_again s key reply text sub charge charge' c now later db db' none no_open keys own e h =
    let closed = open_charge_for-closed key db.charges c no_open in
    let listed = select-append_none (has_key charge.idempotency_key) db.charges c e in
    let self = same_key_refl charge.idempotency_key in grind (arith, closed, listed, self)

-- The request leaves the subscription with the same number of attempts.
priced_or_same :
    (s : Settings) (key : ℕ) (text : String) (sub : Subscription) (charge c : BillingCharge)
    (now : ℕ) (db db' : BillingDb) (found : Option BillingCharge)
    → select (is_subscription key) db.subscriptions ≡ some sub
    → open_charge_for db.charges sub.id ≡ none
    → reuse_by_key found s (declined text) sub charge now db ≡ ok (c, db')
    → (select (is_subscription key) db'.subscriptions ≡ some sub)
      ⊎ (select (is_subscription key) db'.subscriptions
          ≡ some (record sub { price_cents = s.subscription_price_cents }))
unfolding reuse_by_key insert_charge bill_owner take_reply mark_failed
priced_or_same s key text sub charge c now db db' found there no_open h =
    let priced = priced-select key s.subscription_price_cents sub db.subscriptions there in
    ground (arith, priced)

-- A prompt that the gateway refuses at once, with no charge open, makes every retry whose period
-- starts on the same day be answered with that charge, whatever the gateway would answer, and the
-- state stays as it is.
pub initiate_charge_stuck :
    (s : Settings) (key : ℕ) (phone phone' : Option String) (text : String) (reply : PushReply)
    (sub : Subscription) (new_id new_id' now later : ℕ) (c : BillingCharge) (db db' : BillingDb)
    → select (is_subscription key) db.subscriptions ≡ some sub
    → open_charge_for db.charges key ≡ none
    → (period_for s sub now).0 / 86400 ≡ (period_for s sub later).0 / 86400
    → initiate_charge s key none phone (declined text) new_id now db ≡ ok (c, db')
    → initiate_charge s key none phone' reply new_id' later db' ≡ ok (c, db')
unfolding initiate_charge reuse_open reuse_by_key new_charge idempotency_key attempt_for period_for
initiate_charge_stuck s key phone phone' text reply sub new_id new_id' now later c db db' there
      no_open same_day h =
    let own =
      (==_iff sub.id key).0 (select-test (is_subscription key) db.subscriptions sub there) in
    let no_open' : open_charge_for db.charges sub.id ≡ none =
      ap (open_charge_for db.charges) own ∙ no_open in
    let h' : reuse_by_key
          (select (has_key (new_charge s sub none phone new_id now db).idempotency_key) db.charges)
          s (declined text) sub (new_charge s sub none phone new_id now db) now db
        ≡ ok (c, db') =
      rw (there, no_open') at h in
    let charge = new_charge s sub none phone new_id now db in
    let charge' = new_charge s sub none phone' new_id' later db' in
    let keys : charge.idempotency_key ≡ charge'.idempotency_key =
      ap (λ day. (sub.id, day, sub.failed_attempts + 1)) same_day in
    let (closed, listed) =
      declined_again s key reply text sub charge charge' c now later db db' _ no_open keys own refl
        h' in
    let closed' : open_charge_for db'.charges sub.id ≡ none =
      ap (open_charge_for db'.charges) own ∙ closed in
    elim (priced_or_same s key text sub charge c now db db' _ there no_open' h') [
      | inl e ↦ rw (e, closed', listed) refl
      | inr e ↦ rw (e, closed', listed) refl
    ]
