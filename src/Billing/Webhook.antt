-- ===== src/Billing/Webhook.antt =====
-- services/billing.py: `process_webhook`. The event arrives parsed, its name in lower case; `receipt`
-- is what `extract_receipt` reads from it. The cut of a text to 255 characters is left out.
use karibu.Prelude.{
  ℕ, String, Bool, ◌&&◌, not, Option, none, some, [], ◌∷◌, ◌++◌, if◌then◌else◌, select, is_some,
  str_eq, is_empty,
}
use karibu.Api.{Result, ok, err, internal_error}
use karibu.Subscription.{Subscription, BillingCharge, is_terminal, mark_success, mark_failed}
use karibu.Billing.{
  Settings, BillingDb, is_subscription, is_charge, has_provider_reference, is_callback, save_charge,
  apply_successful_payment, apply_failed_payment,
}

pub record WebhookEvent : Type 0 where
  pub event : String
  pub reference : Option ℕ
  pub gateway_response : Option String
  pub receipt : Option ℕ

-- The status strings that `process_webhook` returns.
pub data WebhookOutcome : Type 0 where
  ignored_no_reference ignored_event duplicate_ignored no_matching_charge : WebhookOutcome
  already_finalized success failed : WebhookOutcome

-- `event_type in _SUCCESS_EVENTS`, `event_type in _FAILURE_EVENTS`
unfoldable pub is_success_event : WebhookEvent → Bool
is_success_event ev = str_eq ev.event "charge.success"

unfoldable pub is_failure_event : WebhookEvent → Bool
is_failure_event ev = str_eq ev.event "charge.failed"

-- `data.get("gateway_response") or event_type`
unfoldable pub text_of : Option String → String → String
text_of none event = event
text_of (some t) event = if is_empty t then event else t

-- `db.add(ProcessedCallback(…))`
unfoldable pub record_callback : ℕ → WebhookEvent → String → BillingDb → BillingDb
record_callback ref ev raw_body db = record db {
  callbacks =
      db.callbacks
      ++ record {
        reference = ref;
        result_code = some (if is_success_event ev then 0 else 1);
        raw_payload = raw_body;
      }
        ∷ [];
}

-- the transition of an open charge and its subscription
unfoldable pub finalize :
    Settings
    → BillingCharge
    → Option Subscription
    → ℕ
    → WebhookEvent
    → String
    → ℕ
    → BillingDb
    → Result (WebhookOutcome × BillingDb)
finalize s charge none ref ev raw_body now db = err internal_error
finalize s charge (some sub) ref ev raw_body now db =
    let desc = text_of ev.gateway_response ev.event in
    let paid = mark_success ev.receipt 0 desc now charge in
    let refused = mark_failed (some 1) desc now charge in
    if is_success_event ev
    then ok (
      success,
      record_callback ref ev raw_body (apply_successful_payment sub paid (save_charge paid db)),
    )
    else ok (
      failed,
      record_callback ref ev raw_body (apply_failed_payment s sub now (save_charge refused db)),
    )

-- from the lock on; `charge` is the row read again under it
unfoldable pub under_lock :
    Settings
    → Option BillingCharge
    → Option Subscription
    → ℕ
    → WebhookEvent
    → String
    → ℕ
    → BillingDb
    → Result (WebhookOutcome × BillingDb)
under_lock s none sub ref ev raw_body now db = err internal_error
under_lock s (some charge) sub ref ev raw_body now db =
    if is_terminal charge
    then ok (already_finalized, record_callback ref ev raw_body db)
    else finalize s charge sub ref ev raw_body now db

unfoldable pub match_charge :
    Settings
    → Option BillingCharge
    → ℕ
    → WebhookEvent
    → String
    → ℕ
    → BillingDb
    → Result (WebhookOutcome × BillingDb)
match_charge s none ref ev raw_body now db =
    ok (no_matching_charge, record_callback ref ev raw_body db)
match_charge s (some found) ref ev raw_body now db =
    under_lock s (select (is_charge found.id) db.charges)
      (select (is_subscription found.subscription_id) db.subscriptions) ref ev raw_body now db

unfoldable pub take_event :
    Settings
    → Option ℕ
    → WebhookEvent
    → String
    → ℕ
    → BillingDb
    → Result (WebhookOutcome × BillingDb)
take_event s none ev raw_body now db = ok (ignored_no_reference, db)
take_event s (some ref) ev raw_body now db =
    if not (is_success_event ev) && not (is_failure_event ev)
    then ok (ignored_event, db)
    else if is_some (select (is_callback ref) db.callbacks)
    then ok (duplicate_ignored, db)
    else match_charge s (select (has_provider_reference ref) db.charges) ref ev raw_body now db

-- `process_webhook`
unfoldable pub process_webhook :
    Settings → WebhookEvent → String → ℕ → BillingDb → Result (WebhookOutcome × BillingDb)
process_webhook s ev raw_body now db = take_event s ev.reference ev raw_body now db
