-- ===== src/Billing/Routes.antt =====
-- routers/billing.py: the routes of an owner who pays, and of Paystack's webhook. `isdigit` is
-- Python's; what the gateway answers and whether a signature is right are arguments. `pay_now` commits
-- the phone number before it charges, so it returns the new state also when the charge fails.
use karibu.Prelude.{
  ℕ, String, Bool, false, ◌&&◌, ◌||◌, not, Option, none, some, List, [], ◌∷◌, ◌==◌, str_eq,
  if◌then◌else◌, select, select_all, update, length, strip, is_empty,
}
use karibu.Api.{
  Result, ok, err, ◌>>=◌, ◌>>◌, raise_if, or_raise, restaurant_not_found, no_subscription,
  phone_required, phone_invalid, charge_not_found, webhook_refused, forbidden,
}
use karibu.Access.{User, require_roles, managers}
use karibu.Passwords.{codes}
use karibu.Subscription.{Subscription, BillingCharge}
use karibu.Billing.{Settings, Restaurant, BillingDb, is_restaurant, is_charge, or_text}
use karibu.Billing.Charge.{PushReply, initiate_charge}
use karibu.Billing.Webhook.{WebhookEvent, process_webhook}
use karibu.Billing.Reconcile.{VerifyReply, verify_charge_now}

-- `digits.startswith("0")`, `digits.startswith("254")`, `digits[0] in "17"`
abbrev pub starts_0 : List ℕ → Bool
starts_0 [] = false
starts_0 (c ∷ cs) = c == 48

abbrev pub starts_254 : List ℕ → Bool
starts_254 (a ∷ b ∷ c ∷ cs) = a == 50 && b == 53 && c == 52
starts_254 _ = false

abbrev pub starts_17 : List ℕ → Bool
starts_17 [] = false
starts_17 (c ∷ cs) = c == 49 || c == 55

-- `_looks_like_mpesa`, on the digits of the number
unfoldable pub has_mpesa_shape : List ℕ → Bool
has_mpesa_shape digits =
    (length digits == 10 && starts_0 digits)
    || (length digits == 12 && starts_254 digits)
    || (length digits == 9 && starts_17 digits)

unfoldable pub looks_like_mpesa : (ℕ → Bool) → String → Bool
unfolding has_mpesa_shape
looks_like_mpesa isdigit phone = has_mpesa_shape (select_all isdigit (codes phone))

abbrev pub subscription_of_restaurant : ℕ → Subscription → Bool
subscription_of_restaurant rid sub = sub.restaurant_id == rid

-- `get_current_restaurant` and the query for its subscription, which the routes share
unfoldable pub current_subscription : User → BillingDb → Result (Restaurant × Subscription)
current_subscription user db = do
  restaurant ←
      or_raise (select (is_restaurant user.restaurant_id) db.restaurants) restaurant_not_found
  caller ← require_roles managers user
  sub ←
      or_raise (select (subscription_of_restaurant restaurant.id) db.subscriptions) no_subscription
  ok (restaurant, sub)

abbrev text_or_empty : Option String → String
text_or_empty none = ""
text_or_empty (some s) = s

-- `(body.phone or restaurant.billing_phone or "").strip()`
unfoldable pub phone_for : Option String → Restaurant → String
phone_for phone restaurant = strip (text_or_empty (or_text phone restaurant.billing_phone))

abbrev same_phone : Option String → String → Bool
same_phone none s = false
same_phone (some t) s = str_eq t s

-- `if body.phone and body.phone.strip() != restaurant.billing_phone`
unfoldable pub save_phone : Option String → Restaurant → BillingDb → BillingDb
save_phone none restaurant db = db
save_phone (some phone) restaurant db =
    if not (is_empty phone) && not (same_phone restaurant.billing_phone (strip phone))
    then record db {
      restaurants =
          update (is_restaurant restaurant.id)
            (λ r. record r { billing_phone = some (strip phone) }) db.restaurants;
    }
    else db

-- what `pay_now` checks before it writes
unfoldable pub checked_phone :
    (ℕ → Bool) → Option String → User → BillingDb → Result (Restaurant × Subscription × String)
unfolding phone_for
checked_phone isdigit phone user db = do
  found ← current_subscription user db
  let number = phone_for phone found.0
  raise_if (is_empty number) phone_required
  raise_if (not (looks_like_mpesa isdigit number)) phone_invalid
  ok (found.0, found.1, number)

-- the state and the answer once the charge has been asked for
abbrev answered_with :
    BillingDb → Result (BillingCharge × BillingDb) → BillingDb × Result BillingCharge
answered_with saved (ok (charge, db)) = (db, ok charge)
answered_with saved (err e) = (saved, err e)

-- `pay_now`
unfoldable pub pay_now :
    (ℕ → Bool)
    → Settings
    → Option String
    → User
    → PushReply
    → ℕ
    → ℕ
    → BillingDb
    → BillingDb × Result BillingCharge
unfolding save_phone
pay_now isdigit s phone user reply new_id now db = elim (checked_phone isdigit phone user db) [
  | err e ↦ (db, err e)
  | ok (restaurant, sub, number) ↦
      let saved = save_phone phone restaurant db in
      answered_with saved (initiate_charge s sub.id none (some number) reply new_id now saved)
]

-- `verify_charge`
unfoldable pub verify_charge :
    Settings → (ℕ → VerifyReply) → ℕ → User → ℕ → BillingDb → Result BillingDb
verify_charge s verify key user now db = do
  found ← current_subscription user db
  charge ← or_raise (select (is_charge key) db.charges) charge_not_found
  raise_if (not (charge.subscription_id == found.1.id)) charge_not_found
  verify_charge_now s verify charge.id now db

-- `paystack_webhook`, which is answered the same whatever `process_webhook` raises
unfoldable pub paystack_webhook :
    Settings → Bool → Bool → WebhookEvent → String → ℕ → BillingDb → Result BillingDb
paystack_webhook s signed allowed event raw_body now db = do
  raise_if (not signed) webhook_refused
  raise_if (not allowed) forbidden
  elim (process_webhook s event raw_body now db) [ err e ↦ ok db | ok (outcome, db') ↦ ok db' ]
