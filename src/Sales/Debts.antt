-- ===== src/Sales/Debts.antt =====
-- routers/debts.py: collecting a repayment, the only place where a debt turns into revenue.
use Prim.Native.String.{◌++◌ as str_append}
use karibu.Prelude.{
  ℕ, ◌+◌, String, Bool, ◌&&◌, not, Option, none, some, List, [], ◌∷◌, ◌++◌, ltb, leb, ◌==◌, str_eq,
  if◌then◌else◌, select, update, Decimal, to_cents, sum_ℤ,
}
use karibu.Prelude.Int.{ℤ, pos, ◌-ℤ◌}
use karibu.Api.{
  Result, ok, ◌>>=◌, ◌>>◌, raise_if, or_raise, debt_not_found, debt_settled, amount_not_positive,
  amount_exceeds_debt, internal_error,
}
use karibu.Access.{User}
use karibu.Order.{Order, PaymentMethod, sync_payment_status, is_paid}
use karibu.Debt.{Debt, DebtStatus, outstanding_cents, is_outstanding}
use karibu.Sales.{save_order, complete_if}
use karibu.Db.{Db, is_order, is_debt}

-- `DebtPaymentIn` of schemas/order.py
pub record DebtPaymentIn : Type 0 where
  pub amount : Decimal
  pub method : String
  pub reference : Option String

abbrev pub in_books : ℕ → ℕ → Debt → Bool
in_books key rid d = d.id == key && d.restaurant_id == rid

-- `body.method if body.method in ("cash", "mpesa", "card") else "cash"`
unfoldable pub repayment_method : String → PaymentMethod
repayment_method s =
    if str_eq s "mpesa"
    then PaymentMethod.mpesa
    else if str_eq s "card"
    then PaymentMethod.card
    else PaymentMethod.cash

-- `body.reference or …`: an empty text counts as none
abbrev repayment_reference : Option String → Debt → String
repayment_reference none d = str_append "Debt repayment · " d.customer_name
repayment_reference (some s) d =
    if str_eq s "" then str_append "Debt repayment · " d.customer_name else s

-- the `Payment(…)` that `pay_debt` appends; it names nobody as its recorder
unfoldable pub with_repayment : DebtPaymentIn → Debt → ℕ → Order → Order
with_repayment body debt now order = record order {
  payments =
      order.payments
      ++ record {
        method = repayment_method body.method;
        amount_cents = to_cents body.amount;
        reference = some (repayment_reference body.reference debt);
        recorded_by_id = none;
        received_at = now;
      }
        ∷ [];
}

-- `debt.paid_cents += pay_cents`, and settling the debt when nothing is left
unfoldable pub reduce : ℕ → ℕ → Debt → Debt
unfolding outstanding_cents
reduce pay_cents now debt =
    let reduced = record debt { paid_cents = debt.paid_cents + pay_cents } in
    if leb (outstanding_cents reduced) 0
    then record reduced { status = DebtStatus.settled; settled_at = some now }
    else reduced

-- `pay_debt`
unfoldable pub pay_debt : ℕ → DebtPaymentIn → User → ℕ → Db → Result Db
pay_debt key body user now db = do
  debt ← or_raise (select (in_books key user.restaurant_id) db.debts) debt_not_found
  raise_if (not (is_outstanding debt.status)) debt_settled
  raise_if (leb (to_cents body.amount) 0) amount_not_positive
  raise_if (ltb (outstanding_cents debt) (to_cents body.amount)) amount_exceeds_debt
  order ← or_raise (select (is_order debt.order_id) db.orders) internal_error
  let reduced = reduce (to_cents body.amount) now debt
  let synced = sync_payment_status (with_repayment body debt now order)
  ok (record db {
    debts = update (is_debt debt.id) (λ _. reduced) db.debts;
    orders = save_order (complete_if (is_paid synced.payment_status) synced) db.orders;
  })

-- the sum of `list_debts` over all outstanding debts of a restaurant
unfoldable pub total_outstanding : ℕ → List Debt → ℤ
total_outstanding rid = sum_ℤ (λ (d : Debt).
    if d.restaurant_id == rid && is_outstanding d.status
    then pos d.amount_cents -ℤ pos d.paid_cents
    else pos 0)
