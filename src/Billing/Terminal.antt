-- ===== src/Billing/Terminal.antt =====
-- A charge that reached a final state keeps it (services/billing.py).
use karibu.Prelude.{
  ℕ, ◌≡◌, ◌≢◌, refl, ◌∙◌, String, true, false, Option, none, some, List, arith, select, select-test,
  select-update_other, update, ==_iff,
}
use karibu.Api.{ok}
use karibu.Subscription.{Subscription, BillingCharge, is_terminal, mark_success, mark_failed}
use karibu.Billing.{
  Settings, BillingDb, is_charge, apply_failed_payment, apply_successful_payment, or_text,
}
use karibu.Billing.Webhook.{
  WebhookEvent, WebhookOutcome, record_callback, finalize, under_lock, match_charge, take_event,
  process_webhook, text_of,
}
use karibu.Billing.Reconcile.{
  VerifyReply, unreachable, answered, confirm, or_incomplete, verify_found, verify_charge_now,
}

module _ (key : ℕ) (c : BillingCharge) where
  -- Saving a row that was open leaves a final one alone.
  terminal-update :
      (j : ℕ) (d d' : BillingCharge) (charges : List BillingCharge)
      → select (is_charge key) charges ≡ some c
      → is_terminal c ≡ true
      → select (is_charge j) charges ≡ some d
      → is_terminal d ≡ false
      → d'.id ≡ d.id
      → select (is_charge key) (update (is_charge d'.id) (λ _. d') charges) ≡ some c
  terminal-update j d d' charges found final found' not_final same =
      let at_j : d.id ≡ j = (==_iff d.id j).0 (select-test (is_charge j) charges d found') in
      let apart : j ≢ key = λ same_key. absurd (cc) in
      select-update_other (is_charge key) (is_charge d'.id) (λ _. d') charges (λ x e. ground arith)
      ∙ found

  finalize-terminal :
      (s : Settings) (j : ℕ) (d : BillingCharge) (sub : Option Subscription) (ref : ℕ)
      (ev : WebhookEvent) (raw : String) (now : ℕ) (db db' : BillingDb) (o : WebhookOutcome)
      → select (is_charge key) db.charges ≡ some c
      → is_terminal c ≡ true
      → select (is_charge j) db.charges ≡ some d
      → is_terminal d ≡ false
      → finalize s d sub ref ev raw now db ≡ ok (o, db')
      → select (is_charge key) db'.charges ≡ some c
  unfolding finalize record_callback apply_failed_payment apply_successful_payment mark_success
      mark_failed
  finalize-terminal s j d none ref ev raw now db db' o found final found' not_final h = absurd (cc)
  finalize-terminal s j d (some sub) ref ev raw now db db' o found final found' not_final h =
      let desc = text_of ev.gateway_response ev.event in
      ground (
        arith,
        terminal-update j d (mark_success ev.receipt 0 desc now d) db.charges found final found'
            not_final refl,
        terminal-update j d (mark_failed (some 1) desc now d) db.charges found final found'
            not_final refl,
      )

-- A webhook that is handled leaves a charge that is final as it is.
pub process_webhook-terminal :
    (s : Settings) (ev : WebhookEvent) (raw : String) (now key : ℕ) (c : BillingCharge)
    (db db' : BillingDb) (o : WebhookOutcome)
    → select (is_charge key) db.charges ≡ some c
    → is_terminal c ≡ true
    → process_webhook s ev raw now db ≡ ok (o, db')
    → select (is_charge key) db'.charges ≡ some c
unfolding process_webhook take_event match_charge under_lock record_callback
process_webhook-terminal s ev raw now key c db db' o found final h =
    grind (arith, finalize-terminal)

confirm-terminal :
    (s : Settings) (reply : VerifyReply) (j : ℕ) (d : BillingCharge) (sub : Option Subscription)
    (now key : ℕ) (c : BillingCharge) (db db' : BillingDb)
    → select (is_charge key) db.charges ≡ some c
    → is_terminal c ≡ true
    → select (is_charge j) db.charges ≡ some d
    → is_terminal d ≡ false
    → confirm s reply d sub now db ≡ ok db'
    → select (is_charge key) db'.charges ≡ some c
unfolding confirm apply_failed_payment apply_successful_payment mark_success mark_failed
confirm-terminal s unreachable j d sub now key c db db' found final found' not_final h =
    ground arith
confirm-terminal s (answered settled receipt r m) j d none now key c db db' found final found'
      not_final h =
    ground arith
confirm-terminal s (answered settled receipt r m) j d (some sub) now key c db db' found final found'
      not_final h =
    let refused = mark_failed none (or_incomplete (or_text r (or_text m none))) now d in
    let paid = mark_success receipt 0 "Confirmed" now d in
    let kept_if_refused =
      terminal-update key c j d refused db.charges found final found' not_final refl in
    let kept_if_paid =
      terminal-update key c j d paid db.charges found final found' not_final refl in
    ground (arith, kept_if_refused, kept_if_paid)

-- Asking the gateway about any charge leaves a charge that is final as it is.
pub verify_charge_now-terminal :
    (s : Settings) (verify : ℕ → VerifyReply) (asked now key : ℕ) (c : BillingCharge)
    (db db' : BillingDb)
    → select (is_charge key) db.charges ≡ some c
    → is_terminal c ≡ true
    → verify_charge_now s verify asked now db ≡ ok db'
    → select (is_charge key) db'.charges ≡ some c
unfolding verify_charge_now verify_found
verify_charge_now-terminal s verify asked now key c db db' found final h =
    grind (arith, confirm-terminal)
