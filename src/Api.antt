-- ===== src/Api.antt =====
-- core/security.py: `APIError`, and what a request handler returns. Each handler runs in the
-- session of `get_db`, which rolls back when the handler raises, so an error carries no state.
use karibu.Prelude.{ℕ, ◌≡◌, refl, ap, Bool, true, false, Option, none, some}

-- One constructor for each `raise APIError`; the text of a message is not modelled. `internal_error`
-- is the 500 of an exception that no handler raises on purpose.
pub data ApiError : Type 0 where
  discount_not_permitted insufficient_permissions must_change_password subscription_inactive :
      ApiError
  not_an_admin account_disabled session_expired restaurant_not_found : ApiError
  order_not_found menu_item_gone invalid_status exceeds_balance customer_name_required : ApiError
  invalid_payment_method already_paid already_cancelled : ApiError
  debt_not_found debt_settled amount_not_positive amount_exceeds_debt : ApiError
  stock_item_not_found menu_item_not_found more_than_recorded_stock : ApiError
  expense_not_found unknown_category expense_already_paid : ApiError
  staff_not_found unknown_role role_too_high identifier_required email_taken phone_taken : ApiError
  own_deactivation own_role own_reset reset_not_permitted internal_error : ApiError
  invalid_credentials too_many_attempts account_inactive email_unconfirmed invalid_link : ApiError
  link_expired weak_password wrong_current_password password_unchanged : ApiError
  account_not_found invalid_token_type : ApiError
  category_not_found category_not_empty category_has_archived_items already_removed : ApiError
  receipt_not_found unknown_restaurant no_subscription charge_not_found : ApiError
  phone_required phone_invalid webhook_refused forbidden : ApiError
  current_password_required current_password_incorrect : ApiError

pub status : ApiError → ℕ
status ApiError.discount_not_permitted = 403
status ApiError.insufficient_permissions = 403
status ApiError.must_change_password = 403
status ApiError.subscription_inactive = 402
status ApiError.not_an_admin = 404
status ApiError.account_disabled = 401
status ApiError.session_expired = 401
status ApiError.restaurant_not_found = 401
status ApiError.order_not_found = 404
status ApiError.menu_item_gone = 404
status ApiError.invalid_status = 422
status ApiError.exceeds_balance = 422
status ApiError.customer_name_required = 422
status ApiError.invalid_payment_method = 422
status ApiError.already_paid = 409
status ApiError.already_cancelled = 409
status ApiError.debt_not_found = 404
status ApiError.debt_settled = 409
status ApiError.amount_not_positive = 422
status ApiError.amount_exceeds_debt = 422
status ApiError.stock_item_not_found = 404
status ApiError.menu_item_not_found = 404
status ApiError.more_than_recorded_stock = 422
status ApiError.expense_not_found = 404
status ApiError.unknown_category = 422
status ApiError.expense_already_paid = 422
status ApiError.staff_not_found = 404
status ApiError.unknown_role = 422
status ApiError.role_too_high = 403
status ApiError.identifier_required = 422
status ApiError.email_taken = 409
status ApiError.phone_taken = 409
status ApiError.own_deactivation = 422
status ApiError.own_role = 422
status ApiError.own_reset = 422
status ApiError.reset_not_permitted = 403
status ApiError.internal_error = 500
status ApiError.invalid_credentials = 401
status ApiError.too_many_attempts = 429
status ApiError.account_inactive = 403
status ApiError.email_unconfirmed = 403
status ApiError.invalid_link = 400
status ApiError.link_expired = 400
status ApiError.weak_password = 422
status ApiError.wrong_current_password = 422
status ApiError.password_unchanged = 422
status ApiError.account_not_found = 401
status ApiError.invalid_token_type = 401
status ApiError.category_not_found = 404
status ApiError.category_not_empty = 409
status ApiError.category_has_archived_items = 409
status ApiError.already_removed = 409
status ApiError.receipt_not_found = 404
status ApiError.unknown_restaurant = 404
status ApiError.no_subscription = 404
status ApiError.charge_not_found = 404
status ApiError.phone_required = 422
status ApiError.phone_invalid = 422
status ApiError.webhook_refused = 404
status ApiError.forbidden = 403
status ApiError.current_password_required = 422
status ApiError.current_password_incorrect = 403

pub data Result {ℓ} (A : Type ℓ) : Type ℓ where
  ok : A → Result A
  err : ApiError → Result A

infixl 5 ◌>>=◌ ◌>>◌
abbrev pub ◌>>=◌ {ℓ κ} : {S : Type ℓ} {T : Type κ} → Result S → (S → Result T) → Result T
ok done >>= next = next done
err raised >>= _ = err raised

-- a check that returns nothing, and what follows it
abbrev pub ◌>>◌ {κ} : {T : Type κ} → Result (Unit {0}) → Result T → Result T
check >> rest = check >>= λ _. rest

-- `if test: raise e`
abbrev pub raise_if : Bool → ApiError → Result (Unit {0})
raise_if true e = err e
raise_if false e = ok tt

-- `if not row: raise e`
abbrev pub or_raise {ℓ} : {A : Type ℓ} → Option A → ApiError → Result A
or_raise none e = err e
or_raise (some a) e = ok a

-- What a request leaves behind: the new state, or the old one after a rollback.
abbrev pub after {ℓ} : {S : Type ℓ} → (S → Result S) → S → S
after handler s = elim (handler s) [ ok s' ↦ s' | err e ↦ s ]

-- Inversions of a chain that ended well.
pub or_raise-eq-ok {ℓ κ} :
    {A : Type ℓ} {B : Type κ} (o : Option A) (e : ApiError) (f : A → Result B) {b : B}
    → (or_raise o e >>= f) ≡ ok b
    → (a : A) × (o ≡ some a) × (f a ≡ ok b)
or_raise-eq-ok none e f h = absurd (cc)
or_raise-eq-ok (some a) e f h = (a, refl, h)

pub raise_if-eq-ok {κ} :
    {B : Type κ} (b : Bool) (e : ApiError) (k : Result B) {r : B}
    → (raise_if b e >> k) ≡ ok r
    → (b ≡ false) × (k ≡ ok r)
raise_if-eq-ok true e k h = absurd (cc)
raise_if-eq-ok false e k h = (refl, h)

pub bind-eq-ok {ℓ κ} :
    {S : Type ℓ} {T : Type κ} (first : Result S) (next : S → Result T) {r : T}
    → (first >>= next) ≡ ok r
    → (s : S) × (first ≡ ok s) × (next s ≡ ok r)
bind-eq-ok (err raised) next h = absurd (cc)
bind-eq-ok (ok s) next h = (s, refl, h)

pub ok-injective {ℓ} : {A : Type ℓ} {a b : A} → ok a ≡ ok b → a ≡ b
ok-injective h = cc

pub or_raise-is_ok {ℓ} :
    {A : Type ℓ} (o : Option A) (e : ApiError) {a : A} → or_raise o e ≡ ok a → o ≡ some a
or_raise-is_ok none e h = absurd (cc)
or_raise-is_ok (some b) e h = ap some (ok-injective h)
