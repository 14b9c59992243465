-- ===== src/Billing/Retry.antt =====
-- Requesting a charge again (services/billing.py, `initiate_charge`).
use karibu.Prelude.{
  ℕ, ◌≡◌, sym, ap, String, Bool, true, false, ◌&&◌, Option, none, some, List, [], ◌∷◌, ◌++◌, arith,
  ◌==◌, select, select-test, select-update, update, is_some, ==_iff,
}
use mathlib.Core.Path.{subst}
use karibu.Api.{ok, or_raise-eq-ok}
use karibu.Subscription.{Subscription, BillingCharge, is_open, mark_success, mark_failed}
use karibu.Billing.{Settings, BillingDb, is_subscription, open_charge_for, add_charge}
use karibu.Billing.Charge.{
  PushReply, declined, pushed, new_charge, has_key, take_reply, bill_owner, insert_charge,
  reuse_by_key, reuse_open, initiate_charge,
}

open_charge_for-snoc :
    (key : ℕ) (cs : List BillingCharge) (c : BillingCharge)
    → open_charge_for cs key ≡ none
    → (c.subscription_id == key && is_open c.status) ≡ true
    → open_charge_for (cs ++ c ∷ []) key ≡ some c
unfolding open_charge_for
open_charge_for-snoc key [] c h t = ground arith
open_charge_for-snoc key (x ∷ cs) c h t = ground (arith, open_charge_for-snoc key cs c)

-- Where the query finds no open charge, no other query finds one.
open_charge_for-none :
    (key : ℕ) (test : BillingCharge → Bool) (cs : List BillingCharge) (c : BillingCharge)
    → open_charge_for cs key ≡ none
    → select test cs ≡ some c
    → (c.subscription_id == key && is_open c.status) ≡ false
unfolding open_charge_for
open_charge_for-none key test [] c h t = absurd (cc)
open_charge_for-none key test (x ∷ cs) c h t = ground (arith, open_charge_for-none key test cs c)

take_reply-open :
    (s : Settings) (reply : PushReply) (sub : Subscription) (charge c : BillingCharge) (now : ℕ)
    (db db' : BillingDb)
    → take_reply s reply sub charge now db ≡ ok (c, db')
    → is_open c.status ≡ true
    → (db' ≡ add_charge c db) × (c.subscription_id ≡ charge.subscription_id)
unfolding take_reply mark_success mark_failed is_open
take_reply-open s (declined t) sub charge c now db db' h t' = ground arith
take_reply-open s (pushed ref st t) sub charge c now db db' h t' = ground arith

-- A subscription with a new price stays where it was.
pub priced-select :
    (key price : ℕ) (sub : Subscription) (subs : List Subscription)
    → select (is_subscription key) subs ≡ some sub
    → select
        (is_subscription key)
        (update (is_subscription sub.id) (λ _. record sub { price_cents = price }) subs)
      ≡ some (record sub { price_cents = price })
priced-select key price sub subs found =
    let own = select-test (is_subscription key) subs sub found in
    subst
      (λ k.
        select (is_subscription key)
          (update (is_subscription k) (λ _. record sub { price_cents = price }) subs)
        ≡ some (record sub { price_cents = price }))
      (sym ((==_iff sub.id key).0 own))
      (select-update (is_subscription key) (λ _. record sub { price_cents = price }) subs sub found
        own)

reuse_open-open :
    (s : Settings) (key : ℕ) (reply : PushReply) (sub : Subscription) (charge c : BillingCharge)
    (now : ℕ) (db db' : BillingDb) (found : Option BillingCharge)
    → select (is_subscription key) db.subscriptions ≡ some sub
    → charge.subscription_id ≡ key
    → open_charge_for db.charges key ≡ found
    → reuse_open found s reply sub charge now db ≡ ok (c, db')
    → is_open c.status ≡ true
    → c.subscription_id ≡ key
    → (is_some (select (is_subscription key) db'.subscriptions) ≡ true)
      × (open_charge_for db'.charges key ≡ some c)
unfolding reuse_open reuse_by_key insert_charge bill_owner mark_failed
reuse_open-open s key reply sub charge c now db db' (some d) there own e h opened mine = grind arith
reuse_open-open s key reply sub charge c now db db' none there own e h opened mine =
    let added = open_charge_for-snoc key db.charges c e in
    let not_there = open_charge_for-none key (has_key charge.idempotency_key) db.charges c e in
    let priced = priced-select key s.subscription_price_cents sub db.subscriptions there in
    let same_sub =
      (==_iff sub.id key).0 (select-test (is_subscription key) db.subscriptions sub there) in
    grind (arith, take_reply-open, added, not_there, priced)

-- The state in which a request left an open charge has it on record.
initiate_charge-open :
    (s : Settings) (key : ℕ) (attempt : Option ℕ) (phone : Option String) (reply : PushReply)
    (new_id now : ℕ) (c : BillingCharge) (db db' : BillingDb)
    → initiate_charge s key attempt phone reply new_id now db ≡ ok (c, db')
    → is_open c.status ≡ true
    → c.subscription_id ≡ key
    → (is_some (select (is_subscription key) db'.subscriptions) ≡ true)
      × (open_charge_for db'.charges key ≡ some c)
unfolding initiate_charge new_charge
initiate_charge-open s key attempt phone reply new_id now c db db' h opened mine =
    let (sub, found, rest) = or_raise-eq-ok (select (is_subscription key) db.subscriptions) _ _ h in
    let own : sub.id ≡ key =
      (==_iff sub.id key).0 (select-test (is_subscription key) db.subscriptions sub found) in
    reuse_open-open s key reply sub _ c now db db' _ found own
      (ap (open_charge_for db.charges) (sym own)) rest opened mine

-- While the charge that a request returned for its own subscription is open, a request that
-- follows, with any phone, attempt, answer and time, returns the same charge and changes nothing.
pub initiate_charge_again :
    (s : Settings) (key : ℕ) (attempt attempt' : Option ℕ) (phone phone' : Option String)
    (reply reply' : PushReply) (new_id new_id' now later : ℕ) (c : BillingCharge)
    (db db' : BillingDb)
    → is_open c.status ≡ true
    → c.subscription_id ≡ key
    → initiate_charge s key attempt phone reply new_id now db ≡ ok (c, db')
    → initiate_charge s key attempt' phone' reply' new_id' later db' ≡ ok (c, db')
unfolding initiate_charge reuse_open
initiate_charge_again s key attempt attempt' phone phone' reply reply' new_id new_id' now later c db
      db' opened mine done =
    let (there, reused) =
      initiate_charge-open s key attempt phone reply new_id now c db db' done opened mine in
    grind (arith, select-test)
