-- ===== src/Billing/Reconcile.antt =====
-- services/billing.py: `verify_charge_now`, `_expire_stale_charges` and `run_billing_sweep`. What
-- Paystack answers about a reference, or to a charge, is a function.
use karibu.Prelude.{
  ℕ, ◌+◌, ◌*◌, String, Bool, true, false, ◌&&◌, Option, none, some, List, [], ◌∷◌, ltb,
  if◌then◌else◌, select, select_all,
}
use karibu.Api.{Result, ok, err, ◌>>=◌, internal_error}
use karibu.Subscription.{
  Subscription, SubscriptionStatus, ChargeStatus, BillingCharge, is_open, is_terminal, mark_success,
  mark_failed, reached, is_renewal_due,
}
use karibu.Billing.{
  Settings, BillingDb, is_subscription, is_charge, save_charge, or_text, apply_successful_payment,
  apply_failed_payment,
}
use karibu.Billing.Charge.{GatewayStatus, PushReply, initiate_charge}

-- `verify_transaction`: a `PaystackError`, or the status, the receipt and the texts of the answer
pub data VerifyReply : Type 0 where
  unreachable : VerifyReply
  answered : GatewayStatus → Option ℕ → Option String → Option String → VerifyReply

-- `settled in (STATUS_FAILED, "abandoned", "reversed")`
unfoldable pub is_over : GatewayStatus → Bool
is_over GatewayStatus.failed = true
is_over GatewayStatus.abandoned = true
is_over GatewayStatus.reversed = true
is_over _ = false

-- `provider_reference and is_configured()`: the answer, where Paystack is asked
unfoldable pub ask : Settings → (ℕ → VerifyReply) → Option ℕ → Option VerifyReply
ask s verify none = none
ask s verify (some ref) = if s.is_configured then some (verify ref) else none

unfoldable pub or_incomplete : Option String → String
or_incomplete none = "Payment was not completed"
or_incomplete (some t) = t

pay_in : Option Subscription → BillingCharge → BillingDb → Result BillingDb
pay_in none paid db = err internal_error
pay_in (some sub) paid db = ok (apply_successful_payment sub paid (save_charge paid db))

give_up : Settings → Option Subscription → BillingCharge → ℕ → BillingDb → Result BillingDb
give_up s none refused now db = err internal_error
give_up s (some sub) refused now db = ok (apply_failed_payment s sub now (save_charge refused db))

-- the end of `verify_charge_now`, on a charge that is not terminal
unfoldable pub confirm :
    Settings → VerifyReply → BillingCharge → Option Subscription → ℕ → BillingDb → Result BillingDb
unfolding pay_in give_up or_incomplete
confirm s unreachable charge sub now db = ok db
confirm s (answered GatewayStatus.success receipt response message) charge sub now db =
    pay_in sub (mark_success receipt 0 "Confirmed" now charge) db
confirm s (answered settled receipt response message) charge sub now db =
    if is_over settled
    then give_up s sub
        (mark_failed none (or_incomplete (or_text response (or_text message none))) now charge) now
        db
    else ok db

unfoldable pub verify_found :
    Settings → (ℕ → VerifyReply) → Option BillingCharge → ℕ → BillingDb → Result BillingDb
verify_found s verify none now db = ok db
verify_found s verify (some charge) now db =
    if is_terminal charge then ok db else elim (ask s verify charge.provider_reference) [
      | none ↦ ok db
      | some reply ↦
          confirm s reply charge (select (is_subscription charge.subscription_id) db.subscriptions)
            now db
    ]

-- `verify_charge_now`; it returns the charge as the new state has it
unfoldable pub verify_charge_now :
    Settings → (ℕ → VerifyReply) → ℕ → ℕ → BillingDb → Result BillingDb
verify_charge_now s verify key now db =
    verify_found s verify (select (is_charge key) db.charges) now db

pub record Stats : Type 0 where
  pub charged : ℕ
  pub stale_failed : ℕ
  pub reconciled : ℕ
  pub skipped : ℕ

timed_out :
    Settings
    → BillingCharge
    → Option Subscription
    → ℕ
    → BillingDb × Stats
    → Result (BillingDb × Stats)
unfolding give_up
timed_out s fresh sub now (db, stats) = do
  db' ← give_up s sub (mark_failed none "No confirmation received (timed out)" now fresh) now db
  ok (db', record stats { stale_failed = stats.stale_failed + 1 })

-- the loop of `_expire_stale_charges`, by the answer; `none` is a charge that is not asked about
unfoldable pub expire_by :
    Settings
    → Option VerifyReply
    → BillingCharge
    → Option Subscription
    → ℕ
    → BillingDb × Stats
    → Result (BillingDb × Stats)
unfolding pay_in timed_out
expire_by s none fresh sub now (db, stats) = timed_out s fresh sub now (db, stats)
expire_by s (some unreachable) fresh sub now (db, stats) = ok (db, stats)
expire_by s (some (answered GatewayStatus.success receipt r m)) fresh sub now (db, stats) = do
  db' ← pay_in sub (mark_success receipt 0 "Reconciled" now fresh) db
  ok (db', record stats { reconciled = stats.reconciled + 1 })
expire_by s (some (answered GatewayStatus.unrecognised receipt r m)) fresh sub now (db, stats) =
    ok (db, stats)
expire_by s (some (answered settled receipt r m)) fresh sub now (db, stats) =
    timed_out s fresh sub now (db, stats)

unfoldable pub expire_one :
    Settings
    → (ℕ → VerifyReply)
    → BillingCharge
    → Option BillingCharge
    → ℕ
    → BillingDb × Stats
    → Result (BillingDb × Stats)
expire_one s verify charge none now (db, stats) = err internal_error
expire_one s verify charge (some fresh) now (db, stats) =
    if is_terminal fresh
    then ok (db, stats)
    else expire_by s (ask s verify charge.provider_reference) fresh
        (select (is_subscription charge.subscription_id) db.subscriptions) now (db, stats)

unfoldable pub expire_all :
    Settings
    → (ℕ → VerifyReply)
    → List BillingCharge
    → ℕ
    → BillingDb × Stats
    → Result (BillingDb × Stats)
expire_all s verify [] now (db, stats) = ok (db, stats)
expire_all s verify (charge ∷ stale) now (db, stats) = do
  next ← expire_one s verify charge (select (is_charge charge.id) db.charges) now (db, stats)
  expire_all s verify stale now next

abbrev is_processing : ChargeStatus → Bool
is_processing ChargeStatus.processing = true
is_processing _ = false

-- `requested_at < now - timedelta(minutes=…)` of a processing charge
unfoldable pub is_stale : Settings → ℕ → BillingCharge → Bool
is_stale s now c = is_processing c.status && ltb (c.requested_at + s.charge_stale_minutes * 60) now

-- `_expire_stale_charges`
unfoldable pub expire_stale_charges :
    Settings → (ℕ → VerifyReply) → ℕ → BillingDb × Stats → Result (BillingDb × Stats)
expire_stale_charges s verify now (db, stats) =
    expire_all s verify (select_all (is_stale s now) db.charges) now (db, stats)

-- The sweep's test of one candidate.
unfoldable pub is_due : Subscription → ℕ → Bool
is_due sub now = elim sub.status [
  | SubscriptionStatus.past_due ↦ reached sub.next_retry_at now
  | _ ↦ is_renewal_due sub now
]

-- `status in (TRIALING, ACTIVE, PAST_DUE)`
unfoldable pub is_candidate : Subscription → Bool
is_candidate sub = elim sub.status [
  | SubscriptionStatus.suspended ↦ false
  | SubscriptionStatus.cancelled ↦ false
  | _ ↦ true
]

counts : ChargeStatus → Bool
counts ChargeStatus.success = true
counts s = is_open s

-- what one charge of the sweep leaves; an exception rolls it back
after_charge : Result (BillingCharge × BillingDb) → BillingDb × Stats → BillingDb × Stats
unfolding counts
after_charge (err e) (db, stats) = (db, stats)
after_charge (ok (charge, db')) (db, stats) =
    (db', if counts charge.status then record stats { charged = stats.charged + 1 } else stats)

-- the loop of the sweep; `push` answers by the subscription, `new_id` is the next charge's id
unfoldable pub sweep_all :
    Settings → (ℕ → PushReply) → List Subscription → ℕ → ℕ → BillingDb × Stats → BillingDb × Stats
unfolding after_charge
sweep_all s push [] new_id now (db, stats) = (db, stats)
sweep_all s push (sub ∷ subs) new_id now (db, stats) = sweep_all s push subs (new_id + 1) now (
    if is_due sub now
    then after_charge (initiate_charge s sub.id none none (push sub.id) new_id now db) (db, stats)
    else (db, record stats { skipped = stats.skipped + 1 }))

-- `run_billing_sweep`
unfoldable pub run_billing_sweep :
    Settings → (ℕ → VerifyReply) → (ℕ → PushReply) → ℕ → ℕ → BillingDb → Result (BillingDb × Stats)
run_billing_sweep s verify push new_id now db = do
  (db', stats) ←
      expire_stale_charges s verify now
        (db, record { charged = 0; stale_failed = 0; reconciled = 0; skipped = 0 })
  ok (sweep_all s push (select_all is_candidate db'.subscriptions) new_id now (db', stats))
