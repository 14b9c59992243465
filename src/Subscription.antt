-- ===== src/Subscription.antt =====
-- models/subscription.py: subscriptions, billing charges and the ledger of webhooks.
-- Times are seconds; a provider's reference and an idempotency key are only compared.
use karibu.Prelude.{ℕ, String, Bool, true, false, ◌&&◌, Option, none, some, ltb, leb, is_some}

pub data SubscriptionStatus : Type 0 where
  trialing active past_due suspended cancelled : SubscriptionStatus

pub data ChargeStatus : Type 0 where
  pending processing success failed : ChargeStatus

pub record Subscription : Type 0 where
  pub id : ℕ
  pub restaurant_id : ℕ
  pub status : SubscriptionStatus
  pub price_cents : ℕ
  pub currency : String
  pub trial_ends_at : Option ℕ
  pub current_period_start : Option ℕ
  pub current_period_end : Option ℕ
  pub failed_attempts : ℕ
  pub next_retry_at : Option ℕ

-- `SubscriptionStatus.ACCESS_OK`
unfoldable pub access_ok : SubscriptionStatus → Bool
access_ok SubscriptionStatus.trialing = true
access_ok SubscriptionStatus.active = true
access_ok SubscriptionStatus.past_due = true
access_ok SubscriptionStatus.suspended = false
access_ok SubscriptionStatus.cancelled = false

abbrev pub is_trialing : SubscriptionStatus → Bool
is_trialing SubscriptionStatus.trialing = true
is_trialing _ = false

-- `t is None or now < t`
abbrev pub not_reached : Option ℕ → ℕ → Bool
not_reached none now = true
not_reached (some t) now = ltb now t

-- `t is not None and now >= t`
abbrev pub reached : Option ℕ → ℕ → Bool
reached none now = false
reached (some t) now = leb t now

access_by : SubscriptionStatus → Option ℕ → ℕ → Bool
access_by SubscriptionStatus.trialing ends now = not_reached ends now
access_by s ends now = access_ok s

-- `Subscription.has_access`, at the time `now`
unfoldable pub has_access : Subscription → ℕ → Bool
unfolding access_by access_ok
has_access sub now = access_by sub.status sub.trial_ends_at now

-- `Subscription.in_trial`
unfoldable pub in_trial : Subscription → ℕ → Bool
in_trial sub now =
    is_trialing sub.status && is_some sub.trial_ends_at && not_reached sub.trial_ends_at now

due_by : SubscriptionStatus → Option ℕ → Option ℕ → ℕ → Bool
due_by SubscriptionStatus.trialing trial period now = reached trial now
due_by SubscriptionStatus.active trial period now = reached period now
due_by SubscriptionStatus.past_due trial period now = reached period now
due_by SubscriptionStatus.suspended trial period now = false
due_by SubscriptionStatus.cancelled trial period now = false

-- `Subscription.is_renewal_due`
unfoldable pub is_renewal_due : Subscription → ℕ → Bool
unfolding due_by
is_renewal_due sub now = due_by sub.status sub.trial_ends_at sub.current_period_end now

-- The columns of `BillingCharge`; `result_desc` is the text that the code writes.
pub record BillingCharge : Type 0 where
  pub id : ℕ
  pub subscription_id : ℕ
  pub status : ChargeStatus
  pub amount_cents : ℕ
  pub currency : String
  pub period_start : ℕ
  pub period_end : ℕ
  pub idempotency_key : ℕ × ℕ × ℕ
  pub provider_reference : Option ℕ
  pub provider_receipt : Option ℕ
  pub phone : Option String
  pub result_code : Option ℕ
  pub result_desc : Option String
  pub requested_at : ℕ
  pub finalized_at : Option ℕ
  pub attempt_number : ℕ

-- `status in ChargeStatus.OPEN`
unfoldable pub is_open : ChargeStatus → Bool
is_open ChargeStatus.pending = true
is_open ChargeStatus.processing = true
is_open ChargeStatus.success = false
is_open ChargeStatus.failed = false

-- `BillingCharge.is_terminal`, by `ChargeStatus.TERMINAL`
unfoldable pub is_terminal : BillingCharge → Bool
is_terminal c = elim c.status [
  | ChargeStatus.success ↦ true
  | ChargeStatus.failed ↦ true
  | _ ↦ false
]

-- `mark_success(receipt, code, desc)` at the time `now`
unfoldable pub mark_success : Option ℕ → ℕ → String → ℕ → BillingCharge → BillingCharge
mark_success receipt code desc now c = record c {
  status = ChargeStatus.success;
  provider_receipt = receipt;
  result_code = some code;
  result_desc = some desc;
  finalized_at = some now;
}

-- `mark_failed(code, desc)` at the time `now`
unfoldable pub mark_failed : Option ℕ → String → ℕ → BillingCharge → BillingCharge
mark_failed code desc now c = record c {
  status = ChargeStatus.failed;
  result_code = code;
  result_desc = some desc;
  finalized_at = some now;
}

-- `ProcessedCallback`
pub record ProcessedCallback : Type 0 where
  pub reference : ℕ
  pub result_code : Option ℕ
  pub raw_payload : String
