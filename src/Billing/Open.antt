-- ===== src/Billing/Open.antt =====
-- One open charge for a subscription (services/billing.py, `initiate_charge`).
use karibu.Prelude.{
  ℕ, ◌≡◌, ◌≤◌, ◌⊎◌, refl, String, ◌&&◌, Option, none, List, [], ◌∷◌, ◌++◌, arith, ◌==◌, select,
  select-test, ==_iff, inl, inr, if◌then◌else◌, sum_of, sum_of-append,
}
use karibu.Api.{ok, or_raise-eq-ok}
use karibu.Subscription.{Subscription, BillingCharge, is_open, mark_success, mark_failed}
use karibu.Billing.{
  Settings, BillingDb, is_subscription, apply_failed_payment, apply_successful_payment,
  open_charge_for,
}
use karibu.Billing.Charge.{
  PushReply, declined, pushed, new_charge, take_reply, bill_owner, insert_charge, reuse_by_key,
  reuse_open, initiate_charge,
}

abbrev open_one : ℕ → BillingCharge → ℕ
open_one key c = if c.subscription_id == key && is_open c.status then 1 else 0

-- How many charges of a subscription are open.
unfoldable pub open_charges : ℕ → List BillingCharge → ℕ
open_charges key = sum_of (open_one key)

-- Where the query finds no open charge, there is none.
open_charges-none :
    (key : ℕ) (cs : List BillingCharge) → open_charge_for cs key ≡ none → open_charges key cs ≡ 0
unfolding open_charges open_charge_for
open_charges-none key [] h = refl
open_charges-none key (c ∷ cs) h = ground (arith, open_charges-none key cs)

-- Whatever Paystack answers, the charge is the one new row, for the same subscription and key.
take_reply-charges :
    (s : Settings) (reply : PushReply) (sub : Subscription) (charge c : BillingCharge) (now : ℕ)
    (db db' : BillingDb)
    → take_reply s reply sub charge now db ≡ ok (c, db')
    → (db'.charges ≡ db.charges ++ c ∷ [])
      × (c.subscription_id ≡ charge.subscription_id)
      × (c.idempotency_key ≡ charge.idempotency_key)
unfolding take_reply apply_failed_payment apply_successful_payment mark_success mark_failed
take_reply-charges s (declined t) sub charge c now db db' h = ground arith
take_reply-charges s (pushed ref st t) sub charge c now db db' h = ground arith

-- A request either leaves the charges alone or adds the one it returns where none was open.
initiate_charge-cases :
    (s : Settings) (key : ℕ) (attempt : Option ℕ) (phone : Option String) (reply : PushReply)
    (new_id now : ℕ) (c : BillingCharge) (db db' : BillingDb)
    → initiate_charge s key attempt phone reply new_id now db ≡ ok (c, db')
    → (db' ≡ db)
      ⊎ ((open_charge_for db.charges key ≡ none)
          × (db'.charges ≡ db.charges ++ c ∷ [])
          × (c.subscription_id ≡ key))
unfolding initiate_charge reuse_open reuse_by_key insert_charge bill_owner new_charge mark_failed
initiate_charge-cases s key attempt phone reply new_id now c db db' h =
    let (sub, found, rest) = or_raise-eq-ok (select (is_subscription key) db.subscriptions) _ _ h in
    let own : sub.id ≡ key =
      (==_iff sub.id key).0 (select-test (is_subscription key) db.subscriptions sub found) in
    grind (arith, take_reply-charges)

-- Whatever the gateway answers, a request for a charge leaves a subscription that had at most one
-- open charge with at most one.
pub initiate_charge_one_open :
    (s : Settings) (key : ℕ) (attempt : Option ℕ) (phone : Option String) (reply : PushReply)
    (new_id now other : ℕ) (c : BillingCharge) (db db' : BillingDb)
    → open_charges other db.charges ≤ 1
    → initiate_charge s key attempt phone reply new_id now db ≡ ok (c, db')
    → open_charges other db'.charges ≤ 1
unfolding open_charges
initiate_charge_one_open s key attempt phone reply new_id now other c db db' h done =
    elim (initiate_charge-cases s key attempt phone reply new_id now c db db' done) [
      | inl same ↦ rw same h
      | inr (none_open, added, own) ↦
          rw (added, sum_of-append (open_one other) db.charges (c ∷ []))
            (let empty = open_charges-none key db.charges none_open in ground arith)
    ]
