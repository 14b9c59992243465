-- ===== src/Examples/Account.antt =====
-- Examples of the theorems about billing (services/billing.py): one café at the end of its trial.
use karibu.Prelude.{◌≤◌, ◌≡◌, ◌∷◌, refl, true, none, some, [], arith, select, Option}
use karibu.Api.{Result, ok, err}
use karibu.Access.{User}
use karibu.Subscription.{
  Subscription, SubscriptionStatus, ChargeStatus, BillingCharge, has_access, is_open,
}
use karibu.Billing.{
  Settings, Restaurant, BillingDb, days, period_for, is_subscription, is_charge,
  apply_failed_payment,
}
use karibu.Billing.Charge.{GatewayStatus, PushReply, declined, pushed, initiate_charge}
use karibu.Billing.Webhook.{WebhookEvent, WebhookOutcome, duplicate_ignored, process_webhook}
use karibu.Billing.Period.{period_for-keeps_promise, apply_failed_payment_dunning}
use karibu.Billing.Once.{process_webhook_twice}
use karibu.Billing.Open.{open_charges, initiate_charge_one_open}
use karibu.Billing.Retry.{initiate_charge_again}
use karibu.Billing.Terminal.{process_webhook-terminal}
use karibu.Billing.Stuck.{initiate_charge_stuck}
use karibu.Examples.{boss}

-- what a call returned, where it returned anything
abbrev charge_of : Result (BillingCharge × BillingDb) → Option BillingCharge
charge_of (ok (c, db)) = some c
charge_of (err e) = none

abbrev state_of {ℓ} : {A : Type ℓ} → Result (A × BillingDb) → BillingDb → BillingDb
state_of (ok (a, db)) old = db
state_of (err e) old = old

abbrev outcome_of : Result (WebhookOutcome × BillingDb) → Option WebhookOutcome
outcome_of (ok (o, db)) = some o
outcome_of (err e) = none

abbrev pub settings : Settings
settings = record {
  subscription_price_cents = 250000;
  subscription_currency = "KES";
  trial_days = 7;
  billing_period_days = 30;
  dunning_retry_hours = 0 ∷ 24 ∷ 72 ∷ [];
  charge_stale_minutes = 10;
  is_configured = true;
}

abbrev plan : Subscription
plan = record {
  id = 5;
  restaurant_id = 1;
  status = SubscriptionStatus.trialing;
  price_cents = 250000;
  currency = "KES";
  trial_ends_at = some 604800;
  current_period_start = none;
  current_period_end = none;
  failed_attempts = 0;
  next_retry_at = none;
}

abbrev books : BillingDb
books = record {
  subscriptions = plan ∷ [];
  charges = [];
  callbacks = [];
  restaurants = record { id = 1; billing_phone = some "254700000001"; is_active = true } ∷ [];
  users = boss ∷ [];
}

-- the prompt is on the phone
abbrev offline : PushReply
offline = pushed 77 GatewayStatus.unrecognised none

abbrev asked : Result (BillingCharge × BillingDb)
asked = initiate_charge settings 5 none none offline 9 604800 books

abbrev prompt : BillingCharge
prompt = record {
  id = 9;
  subscription_id = 5;
  status = ChargeStatus.processing;
  amount_cents = 250000;
  currency = "KES";
  period_start = 604800;
  period_end = 3196800;
  idempotency_key = (5, 7, 1);
  provider_reference = some 77;
  provider_receipt = none;
  phone = some "254700000001";
  result_code = none;
  result_desc = none;
  requested_at = 604800;
  finalized_at = none;
  attempt_number = 1;
}

abbrev waiting : BillingDb
waiting = record books { charges = prompt ∷ [] }

abbrev paid_event : WebhookEvent
paid_event = record {
  event = "charge.success";
  reference = some 77;
  gateway_response = some "Approved";
  receipt = some 123;
}

abbrev paid : BillingCharge
paid = record prompt { status = ChargeStatus.success; finalized_at = some 604900 }

abbrev settled : BillingDb
settled = record books { charges = paid ∷ [] }

-- the request leaves exactly the charge `prompt`
asked_once : asked ≡ ok (prompt, waiting)
unfolding initiate_charge period_for karibu.Billing.idempotency_key karibu.Billing.Charge.new_charge
    karibu.Billing.Charge.reuse_open karibu.Billing.Charge.reuse_by_key
    karibu.Billing.Charge.insert_charge karibu.Billing.Charge.bill_owner
    karibu.Billing.Charge.take_reply karibu.Billing.owner_for karibu.Billing.open_charge_for
    karibu.Billing.or_text karibu.Billing.Charge.attempt_for karibu.Access.is_manager
asked_once = refl

period_for-keeps_promise_example :
    (604800 ≤ (period_for settings plan 100).0) × (100 ≤ (period_for settings plan 100).0)
period_for-keeps_promise_example =
    period_for-keeps_promise settings plan 100 604800 refl (omega arith)

apply_failed_payment_dunning_example :
    (sub' : Subscription) × (select
        (is_subscription 5)
        (apply_failed_payment settings plan 700000 books).subscriptions
      ≡ some sub')
    × (sub'.failed_attempts ≡ 1)
    × (has_access sub' 800000 ≡ true)
apply_failed_payment_dunning_example =
    apply_failed_payment_dunning settings plan 700000 800000 books refl

initiate_charge_one_open_example : open_charges 5 waiting.charges ≤ 1
unfolding open_charges
initiate_charge_one_open_example =
    initiate_charge_one_open settings 5 none none offline 9 604800 5 prompt books waiting
      (omega arith) asked_once

initiate_charge_again_example :
    initiate_charge settings 5 (some 2) (some "254711111111") offline 10 605000 waiting
    ≡ ok (prompt, waiting)
unfolding is_open
initiate_charge_again_example =
    initiate_charge_again settings 5 none (some 2) none (some "254711111111") offline offline 9 10
      604800 605000 prompt books waiting refl refl asked_once

process_webhook-terminal_example :
    select
      (is_charge 9)
      (state_of (process_webhook settings paid_event "{}" 700000 settled) settled).charges
    ≡ some paid
unfolding process_webhook karibu.Billing.Webhook.take_event karibu.Billing.Webhook.match_charge
    karibu.Billing.Webhook.under_lock karibu.Subscription.is_terminal
    karibu.Billing.Webhook.is_success_event karibu.Billing.Webhook.is_failure_event
process_webhook-terminal_example =
    process_webhook-terminal settings paid_event "{}" 700000 9 paid settled _ _ refl refl refl

process_webhook_twice_example :
    let db = state_of (process_webhook settings paid_event "{}" 604900 waiting) waiting in
    process_webhook settings paid_event "{}" 605900 db ≡ ok (duplicate_ignored, db)
unfolding process_webhook karibu.Billing.Webhook.take_event karibu.Billing.Webhook.match_charge
    karibu.Billing.Webhook.under_lock karibu.Billing.Webhook.finalize
    karibu.Subscription.is_terminal karibu.Billing.Webhook.is_success_event
    karibu.Billing.Webhook.is_failure_event
process_webhook_twice_example =
    process_webhook_twice settings paid_event "{}" "{}" 77 604900 605900 waiting _ _ refl refl refl

-- the gateway refuses at once; the next request is answered with the failed charge
abbrev refused : BillingCharge
refused = record prompt {
  status = ChargeStatus.failed;
  provider_reference = none;
  result_desc = some "Payment request failed: down";
  finalized_at = some 604800;
}

refused_once :
    initiate_charge settings 5 none none (declined "Payment request failed: down") 9 604800 books
    ≡ ok (refused, record books { charges = refused ∷ [] })
unfolding initiate_charge period_for karibu.Billing.idempotency_key karibu.Billing.Charge.new_charge
    karibu.Billing.Charge.reuse_open karibu.Billing.Charge.reuse_by_key
    karibu.Billing.Charge.insert_charge karibu.Billing.Charge.bill_owner
    karibu.Billing.Charge.take_reply karibu.Billing.owner_for karibu.Billing.open_charge_for
    karibu.Billing.or_text karibu.Billing.Charge.attempt_for karibu.Access.is_manager
    karibu.Subscription.mark_failed
refused_once = refl

initiate_charge_stuck_example :
    initiate_charge settings 5 none none offline 10 605000 (record books { charges = refused ∷ [] })
    ≡ ok (refused, record books { charges = refused ∷ [] })
unfolding karibu.Billing.open_charge_for period_for
initiate_charge_stuck_example =
    initiate_charge_stuck settings 5 none none "Payment request failed: down" offline plan 9 10
      604800 605000 refused books _ refl refl refl refused_once
