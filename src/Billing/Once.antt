-- ===== src/Billing/Once.antt =====
-- A webhook is applied once (services/billing.py, `process_webhook`).
use karibu.Prelude.{
  ℕ, ◌≡◌, refl, String, true, ◌||◌, Option, none, some, List, [], ◌∷◌, ◌++◌, arith, select, is_some,
  Bool-cases, ==_iff, inl, inr,
}
use karibu.Api.{ok}
use karibu.Subscription.{Subscription, BillingCharge, ProcessedCallback}
use karibu.Billing.{Settings, BillingDb, is_callback}
use karibu.Billing.Webhook.{
  WebhookEvent, WebhookOutcome, duplicate_ignored, is_success_event, is_failure_event,
  record_callback, finalize, under_lock, match_charge, take_event, process_webhook,
}

is_seen-record_callback :
    (ref : ℕ) (ev : WebhookEvent) (raw : String) (db : BillingDb)
    → is_some (select (is_callback ref) (record_callback ref ev raw db).callbacks) ≡ true
unfolding record_callback
is_seen-record_callback ref ev raw db = seen _ db.callbacks
  where
    seen :
        (p : ProcessedCallback) (ps : List ProcessedCallback)
        → is_some (select (is_callback p.reference) (ps ++ p ∷ [])) ≡ true
    seen p [] = rw ((==_iff p.reference p.reference).1 refl) refl
    seen p (q ∷ ps) = elim (Bool-cases (is_callback p.reference q)) [
      | inl e ↦ rw e refl
      | inr e ↦ rw e (seen p ps)
    ]

is_seen-finalize :
    (s : Settings) (c : BillingCharge) (sub : Option Subscription) (ref : ℕ) (ev : WebhookEvent)
    (raw : String) (now : ℕ) (db db' : BillingDb) (o : WebhookOutcome)
    → finalize s c sub ref ev raw now db ≡ ok (o, db')
    → is_some (select (is_callback ref) db'.callbacks) ≡ true
unfolding finalize
is_seen-finalize s c none ref ev raw now db db' o h = absurd (cc)
is_seen-finalize s c (some sub) ref ev raw now db db' o h = grind (arith, is_seen-record_callback)

is_seen-match_charge :
    (s : Settings) (found : Option BillingCharge) (ref : ℕ) (ev : WebhookEvent) (raw : String)
    (now : ℕ) (db db' : BillingDb) (o : WebhookOutcome)
    → match_charge s found ref ev raw now db ≡ ok (o, db')
    → is_some (select (is_callback ref) db'.callbacks) ≡ true
unfolding match_charge under_lock
is_seen-match_charge s none ref ev raw now db db' o h = grind (arith, is_seen-record_callback)
is_seen-match_charge s (some found) ref ev raw now db db' o h =
    grind (arith, is_seen-record_callback, is_seen-finalize)

-- A webhook with a reference and a known event that was handled once, whatever its outcome, is
-- ignored as a duplicate when it arrives again right after, and changes nothing.
pub process_webhook_twice :
    (s : Settings) (ev : WebhookEvent) (raw raw' : String) (ref now later : ℕ) (db db' : BillingDb)
    (o : WebhookOutcome)
    → ev.reference ≡ some ref
    → (is_success_event ev || is_failure_event ev) ≡ true
    → process_webhook s ev raw now db ≡ ok (o, db')
    → process_webhook s ev raw' later db' ≡ ok (duplicate_ignored, db')
unfolding process_webhook take_event
process_webhook_twice s ev raw raw' ref now later db db' o same known h =
    grind (arith, is_seen-match_charge)
