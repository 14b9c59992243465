-- ===== src/Examples/Till.antt =====
-- Examples of the theorems about orders and debts (routers/orders.py, routers/debts.py).
use karibu.Prelude.{
  ℕ, ◌+◌, ◌≡◌, ◌<◌, ◌≤◌, ◌↔◌, refl, true, false, none, some, [], ◌∷◌, ◌++◌, inl, arith, to_cents,
  leb, ◌||◌,
}
use karibu.Prelude.Int.{pos, int_laws}
use karibu.Api.{err, after, already_cancelled}
use karibu.Access.{UserRole, is_manager, require_roles}
use karibu.Order.{Order, PaymentStatus, amount_paid_cents, sync_payment_status}
use karibu.Sales.{
  OrderCreate, OrderPaymentIn, create_order, record_payment, update_status, cancel_order, owed,
  owed_on,
}
use karibu.Sales.Debts.{DebtPaymentIn, pay_debt}
use karibu.Sales.Owed.{IsSound}
use karibu.Sales.Collected.{collected}
use karibu.Sales.Repayments.{pay_debt_moves}
use karibu.Sales.Placing.{bill, create_order-total, update_status_cancels}
use karibu.Examples.{boss, waiter, ticket, promise, cafe}

cafe-IsSound : IsSound cafe
unfolding owed owed_on amount_paid_cents karibu.Order.payment_status_of
cafe-IsSound = record {
  covered = (omega int_laws, (omega int_laws, tt));
  synced = (refl, (refl, tt));
  repaid = ((omega arith, inl refl), tt);
  keys = (tt, tt);
}

-- five shillings in cash
abbrev cash : OrderPaymentIn
cash = record {
  method = "cash";
  amount = 5000000;
  reference = none;
  customer_name = none;
  customer_phone = none;
  due_date = none;
}

abbrev order_in : OrderCreate
order_in = record {
  order_type = "takeaway";
  table_number = none;
  customer_name = none;
  notes = none;
  discount = 1000000;
  items = record { menu_item_id = 1; quantity = 3; modifiers = none } ∷ [];
}

abbrev repayment : DebtPaymentIn
repayment = record { amount = 4000000; method = "mpesa"; reference = none }

create_order-total_example :
    (o : Order) × ((after (create_order order_in boss "Q7" 3 2 60) cafe).orders
      ≡ cafe.orders ++ o ∷ [])
    × (o.total_cents ≡ 1400)
    × ((leb 1000000 0 || is_manager UserRole.manager) ≡ true)
unfolding create_order is_manager karibu.Sales.snapshot bill karibu.Prelude.round_half_even
create_order-total_example = create_order-total order_in boss "Q7" 3 2 60 cafe _ refl

update_status_cancels_example :
    ((after (update_status 1 "cancelled" waiter) cafe).stock_items ≡ cafe.stock_items)
    × (cancel_order 1 boss 60 2 (after (update_status 1 "cancelled" waiter) cafe)
        ≡ err already_cancelled)
unfolding update_status require_roles karibu.Sales.get_scoped_order karibu.Order.parse_status
update_status_cancels_example =
    update_status_cancels 1 60 2 waiter boss (ticket 1) cafe _ refl refl refl refl refl

pay_debt_moves_example :
    (0 < 400)
    × (collected 2 (after (pay_debt 1 repayment waiter 70) cafe).orders ≡ some 400)
    × (owed 2 (after (pay_debt 1 repayment waiter 70) cafe).debts ≡ pos 600)
unfolding pay_debt amount_paid_cents karibu.Prelude.round_half_even karibu.Debt.outstanding_cents
    karibu.Prelude.Int.◌-ℤ◌ owed karibu.Prelude.Int.◌+ℤ◌ owed_on
pay_debt_moves_example =
    pay_debt_moves 1 repayment waiter 70 cafe _ promise 0 2 cafe-IsSound refl refl refl
