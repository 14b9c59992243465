-- ===== src/Order/Money.antt =====
-- The money helpers of `Order` (models/order.py).
use karibu.Prelude.{◌+◌, ◌≤◌, ◌<◌, ◌≡◌, ◌↔◌, [], ◌∷◌, ◌++◌, arith, sum_of-append}
use karibu.Order.{Order, Payment, PaymentStatus, sync_payment_status, amount_paid_cents}

-- The status that is written says how the payments stand to the total: unpaid exactly when nothing
-- is paid, partial exactly when something but less than the total is, paid exactly when something
-- is paid and it is the total or more.
pub sync_payment_status-exact :
    (o : Order)
    → let s = (sync_payment_status o).payment_status in
      ((s ≡ PaymentStatus.unpaid) ↔ (amount_paid_cents o ≡ 0))
      × ((s ≡ PaymentStatus.partial)
          ↔ ((0 < amount_paid_cents o) × (amount_paid_cents o < o.total_cents)))
      × ((s ≡ PaymentStatus.paid)
          ↔ ((0 < amount_paid_cents o) × (o.total_cents ≤ amount_paid_cents o)))
unfolding sync_payment_status
sync_payment_status-exact o = (ground arith, ground arith, ground arith)

-- A payment adds its amount to what is paid.
pub amount_paid_cents-append :
    (o : Order) (p : Payment)
    → amount_paid_cents (record o { payments = o.payments ++ p ∷ [] })
      ≡ amount_paid_cents o + p.amount_cents
unfolding amount_paid_cents
amount_paid_cents-append o p =
    omega (arith, sum_of-append (λ (p : Payment). p.amount_cents) o.payments (p ∷ []))
