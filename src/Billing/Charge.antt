-- ===== src/Billing/Charge.antt =====
-- services/billing.py: `initiate_charge`. What Paystack answers is an argument.
use karibu.Prelude.{
  ℕ, ◌+◌, zero, suc, String, Bool, ◌&&◌, ◌||◌, Option, none, some, ◌==◌, if◌then◌else◌, select,
  is_some,
}
use karibu.Api.{Result, ok, ◌>>=◌, ◌>>◌, raise_if, or_raise, internal_error}
use karibu.Access.{User}
use karibu.Subscription.{
  Subscription, ChargeStatus, BillingCharge, is_open, mark_success, mark_failed,
}
use karibu.Billing.{
  Settings, Restaurant, BillingDb, is_subscription, is_restaurant, has_provider_reference,
  save_subscription, add_charge, owner_for, open_charge_for, or_text, period_for, idempotency_key,
  apply_successful_payment, apply_failed_payment,
}

-- The states that Paystack reports; `missing` is the empty text, `unrecognised` any other.
pub data GatewayStatus : Type 0 where
  success failed abandoned reversed missing unrecognised : GatewayStatus

-- `charge_mobile_money`: a `PaystackError` with the message that the charge is given, or the result.
pub data PushReply : Type 0 where
  declined : String → PushReply
  pushed : ℕ → GatewayStatus → Option String → PushReply

-- `attempt or (sub.failed_attempts + 1)`
unfoldable pub attempt_for : Option ℕ → Subscription → ℕ
attempt_for none sub = sub.failed_attempts + 1
attempt_for (some zero) sub = sub.failed_attempts + 1
attempt_for (some (suc a)) sub = suc a

unfoldable pub same_key : ℕ × ℕ × ℕ → ℕ × ℕ × ℕ → Bool
same_key (a, b, c) (x, y, z) = a == x && b == y && c == z

abbrev pub has_key : ℕ × ℕ × ℕ → BillingCharge → Bool
has_key k c = same_key c.idempotency_key k

billing_phone_of : Option Restaurant → Option String
billing_phone_of none = none
billing_phone_of (some r) = r.billing_phone

-- the `BillingCharge(…)` of `initiate_charge`
unfoldable pub new_charge :
    Settings → Subscription → Option ℕ → Option String → ℕ → ℕ → BillingDb → BillingCharge
unfolding billing_phone_of
new_charge s sub attempt phone_override new_id now db =
    let (start, end) = period_for s sub now in
    record {
      id = new_id;
      subscription_id = sub.id;
      status = ChargeStatus.pending;
      amount_cents = s.subscription_price_cents;
      currency = sub.currency;
      period_start = start;
      period_end = end;
      idempotency_key = idempotency_key sub start (attempt_for attempt sub);
      provider_reference = none;
      provider_receipt = none;
      phone =
          or_text phone_override
            (billing_phone_of (select (is_restaurant sub.restaurant_id) db.restaurants));
      result_code = none;
      result_desc = none;
      requested_at = now;
      finalized_at = none;
      attempt_number = attempt_for attempt sub;
    }

-- the unique indexes of `billing_charges` that a new pending charge can violate
unfoldable pub clashes : BillingCharge → BillingCharge → Bool
clashes new c =
    (c.subscription_id == new.subscription_id
      && c.period_start == new.period_start
      && is_open c.status)
    || has_key new.idempotency_key c

declined_text : Option String → String
declined_text none = "Payment declined"
declined_text (some t) = t

-- what the answer of Paystack makes of the flushed charge
unfoldable pub take_reply :
    Settings
    → PushReply
    → Subscription
    → BillingCharge
    → ℕ
    → BillingDb
    → Result (BillingCharge × BillingDb)
unfolding declined_text
take_reply s (declined text) sub charge now db =
    let c = mark_failed none text now charge in ok (c, add_charge c db)
take_reply s (pushed ref GatewayStatus.success text) sub charge now db =
    let c =
      mark_success (some ref) 0 "Paid" now (record charge { provider_reference = some ref }) in
    raise_if (is_some (select (has_provider_reference ref) db.charges)) internal_error
    >> ok (c, apply_successful_payment sub c (add_charge c db))
take_reply s (pushed ref GatewayStatus.failed text) sub charge now db =
    let c =
      mark_failed none (declined_text (or_text text none)) now
        (record charge { provider_reference = some ref }) in
    raise_if (is_some (select (has_provider_reference ref) db.charges)) internal_error
    >> ok (c, apply_failed_payment s sub now (add_charge c db))
take_reply s (pushed ref _ text) sub charge now db =
    let c = record charge { provider_reference = some ref; status = ChargeStatus.processing } in
    raise_if (is_some (select (has_provider_reference ref) db.charges)) internal_error
    >> ok (c, add_charge c db)

unfoldable pub bill_owner :
    Settings
    → Option User
    → PushReply
    → Subscription
    → BillingCharge
    → ℕ
    → BillingDb
    → Result (BillingCharge × BillingDb)
bill_owner s none reply sub charge now db =
    let c = mark_failed none "No owner account on file to bill" now charge in
    ok (c, add_charge c db)
bill_owner s (some owner) reply sub charge now db = take_reply s reply sub charge now db

-- from the flush of the new charge on; a violated index rolls the transaction back
unfoldable pub insert_charge :
    Settings
    → PushReply
    → Subscription
    → BillingCharge
    → ℕ
    → BillingDb
    → Result (BillingCharge × BillingDb)
insert_charge s reply sub charge now db =
    if is_some (select (clashes charge) db.charges)
    then or_raise (open_charge_for db.charges sub.id) internal_error >>= (λ c. ok (c, db))
    else let priced = record sub { price_cents = s.subscription_price_cents } in
      bill_owner s (owner_for db.users sub.restaurant_id) reply priced charge now
        (save_subscription priced db)

-- the lookup by idempotency key
unfoldable pub reuse_by_key :
    Option BillingCharge
    → Settings
    → PushReply
    → Subscription
    → BillingCharge
    → ℕ
    → BillingDb
    → Result (BillingCharge × BillingDb)
reuse_by_key (some dup) s reply sub charge now db = ok (dup, db)
reuse_by_key none s reply sub charge now db = insert_charge s reply sub charge now db

-- the lookup of an open charge
unfoldable pub reuse_open :
    Option BillingCharge
    → Settings
    → PushReply
    → Subscription
    → BillingCharge
    → ℕ
    → BillingDb
    → Result (BillingCharge × BillingDb)
reuse_open (some c) s reply sub charge now db = ok (c, db)
reuse_open none s reply sub charge now db =
    reuse_by_key (select (has_key charge.idempotency_key) db.charges) s reply sub charge now db

-- `initiate_charge`; `new_id` is the id of a new charge
unfoldable pub initiate_charge :
    Settings
    → ℕ
    → Option ℕ
    → Option String
    → PushReply
    → ℕ
    → ℕ
    → BillingDb
    → Result (BillingCharge × BillingDb)
initiate_charge s key attempt phone_override reply new_id now db = do
  sub ← or_raise (select (is_subscription key) db.subscriptions) internal_error
  let charge = new_charge s sub attempt phone_override new_id now db
  reuse_open (open_charge_for db.charges sub.id) s reply sub charge now db
