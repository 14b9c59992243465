-- ===== src/Examples/Figures.antt =====
-- Examples of the theorems about the figures (routers/analytics.py, core/timezone.py) and about
-- receipts: two orders of the café, one of them paid over two days, at 13:00 of day 100 in Nairobi.
use karibu.Prelude.{
  ℕ, ◌+◌, ◌-◌, ◌*◌, ◌≤◌, ◌<◌, ◌≡◌, ◌↔◌, refl, true, none, some, List, [], ◌∷◌, map, arith, sum_of,
  sum_ℤ, select_all, count_from, inl,
}
use karibu.Prelude.Int.{pos, ◌+ℤ◌, int_laws}
use karibu.Api.{ok}
use karibu.Access.{UserRole}
use karibu.Order.{Order, OrderStatus, PaymentMethod, PaymentStatus, amount_paid_cents}
use karibu.Debt.{outstanding_cents}
use karibu.Db.{Db}
use karibu.Sales.{owed, owed_on}
use karibu.Sales.Owed.{IsSound}
use karibu.Clock.{local_date, day_bounds_utc, day_bounds_utc_iff}
use karibu.Analytics.{takings, takings_today, MoneyToday}
use karibu.Analytics.Reports.{SalesReport}
use karibu.Analytics.Series.{taken_since}
use karibu.Analytics.Exact.{day_sales, sales_report-IsExact}
use karibu.Analytics.Print.{sales_pdf_leaves_out}
use karibu.Analytics.Today.{hour_sales, dashboard-IsExact}
use karibu.Analytics.People.{Person, Accountability, credit_on_order, listed, listed_debt}
use karibu.Analytics.Totals.{sales_of, accountability-adds_up}
use karibu.Receipts.{issue_receipt, public_receipt, receipt_of}
use karibu.Receipts.Shared.{issue_receipt_shared}
use karibu.Examples.{boss, waiter, cafe, ticket, promise}

abbrev nairobi : ℕ
nairobi = 10800

abbrev lunch : ℕ
lunch = 8676000

abbrev yesterday : ℕ
yesterday = 8600000

abbrev paid_ticket : Order
paid_ticket = record (ticket 1) {
  created_at = yesterday;
  payment_status = PaymentStatus.paid;
  payments =
      record {
        method = PaymentMethod.cash;
        amount_cents = 600;
        reference = none;
        recorded_by_id = some 2;
        received_at = yesterday;
      }
      ∷ record {
        method = PaymentMethod.mpesa;
        amount_cents = 400;
        reference = none;
        recorded_by_id = some 2;
        received_at = 8670000;
      }
      ∷ [];
}

abbrev till : Db
till = record cafe {
  orders = paid_ticket ∷ record (ticket 2) { created_at = yesterday } ∷ [];
  debts = record promise { created_at_idx = yesterday } ∷ [];
}

day_bounds_utc_iff_example :
    ((day_bounds_utc nairobi lunch).0 ≤ 8670000) × (8670000 < (day_bounds_utc nairobi lunch).1)
    ↔ (local_date nairobi 8670000 ≡ local_date nairobi lunch)
day_bounds_utc_iff_example = day_bounds_utc_iff nairobi lunch 8670000 (omega arith) (omega arith)

abbrev two_days : SalesReport
two_days = record {
  gross_revenue = 1000;
  order_count = 0;
  average_order_value = 0;
  payment_methods = (PaymentMethod.cash, 600) ∷ (PaymentMethod.mpesa, 400) ∷ [];
  top_sellers = ("Tea", 4) ∷ [];
  revenue_series = (99, 600) ∷ (100, 400) ∷ [];
}

sales_report-IsExact_example :
    (two_days.revenue_series
      ≡ map
          (λ d. (d, day_sales nairobi d (takings 1 till.orders)))
          (count_from (local_date nairobi lunch + 1 - 2) 2))
    × (two_days.gross_revenue
        ≡ sum_of (λ (e : ℕ × ℕ). e.1) two_days.revenue_series
          + taken_since (day_bounds_utc nairobi lunch).1 (takings 1 till.orders))
    × (sum_of (λ e. e.1) two_days.payment_methods ≡ two_days.gross_revenue)
unfolding karibu.Analytics.Reports.sales_report karibu.Access.require_roles takings
    karibu.Analytics.count_orders karibu.Analytics.Reports.average
    karibu.Analytics.Reports.by_method karibu.Analytics.sold_by_name
    karibu.Analytics.Reports.fill_daily karibu.Analytics.Reports.method_place
    karibu.Analytics.lines_sold karibu.Analytics.Reports.add_daily
sales_report-IsExact_example =
    sales_report-IsExact nairobi 2 lunch boss till two_days (omega arith) (omega arith)
      (omega arith) refl

abbrev two_days_print : SalesReport
two_days_print = record two_days {
  order_count = 2;
  average_order_value = 500;
  revenue_series = (98, 0) ∷ (99, 600) ∷ [];
}

sales_pdf_leaves_out_example :
    (two_days_print.revenue_series
      ≡ (local_date nairobi lunch - 2, 0)
        ∷ map
            (λ d. (d, day_sales nairobi d (takings 1 till.orders)))
            (count_from (local_date nairobi lunch + 1 - 2) (2 - 1)))
    × (two_days_print.gross_revenue
        ≡ sum_of (λ (e : ℕ × ℕ). e.1) two_days_print.revenue_series
          + taken_since (day_bounds_utc nairobi lunch).0 (takings 1 till.orders))
unfolding karibu.Analytics.Reports.sales_pdf karibu.Analytics.Reports.pdf_days
    karibu.Access.require_roles takings karibu.Analytics.count_orders
    karibu.Analytics.Reports.average karibu.Analytics.Reports.by_method
    karibu.Analytics.sold_by_name karibu.Analytics.Reports.fill_daily
    karibu.Analytics.Reports.method_place karibu.Analytics.lines_sold
    karibu.Analytics.Reports.add_daily
sales_pdf_leaves_out_example =
    sales_pdf_leaves_out nairobi 2 lunch boss till two_days_print (omega arith) (omega arith)
      (omega arith) (omega arith) refl

abbrev today : MoneyToday
today = takings_today nairobi lunch 1 till.orders

dashboard-IsExact_example :
    (boss.role ≡ UserRole.manager)
    × (today.total_sales ≡ day_sales nairobi (local_date nairobi lunch) (takings 1 till.orders))
    × (today.trend
        ≡ map
            (λ d. day_sales nairobi d (takings 1 till.orders))
            (count_from (local_date nairobi lunch - 11) 12))
    × (today.hourly
        ≡ map
            (λ h. (h, hour_sales nairobi (local_date nairobi lunch) h (takings 1 till.orders)))
            (count_from 7 15))
unfolding karibu.Analytics.dashboard karibu.Access.is_manager
dashboard-IsExact_example =
    dashboard-IsExact nairobi lunch boss till today (omega arith) (omega arith) refl

till-IsSound : IsSound till
unfolding owed owed_on amount_paid_cents karibu.Order.payment_status_of
till-IsSound = record {
  covered = (omega int_laws, (omega int_laws, tt));
  synced = (refl, (refl, tt));
  repaid = ((omega arith, inl refl), tt);
  keys = (tt, tt);
}

abbrev asha : Person
asha = record {
  name = "Asha";
  orders_served = 2;
  sales = 1000;
  unpaid_orders = 0;
  unpaid_value = 0;
  credit_given = 1;
  credit_outstanding = 1000;
}

abbrev held : Accountability
held = record { staff = asha ∷ []; total_unpaid = 0; total_credit_outstanding = 1000 }

accountability-adds_up_example :
    (pos (sum_of sales_of held.staff + held.total_unpaid)
        +ℤ sum_ℤ
            (λ (o : Order). credit_on_order 1 till.debts o.id)
            (select_all (listed 1 (lunch - 30 * 86400)) till.orders)
      ≡ pos (
          sum_of
            (λ (o : Order). o.total_cents)
            (select_all (listed 1 (lunch - 30 * 86400)) till.orders)))
    × (held.total_credit_outstanding
        ≡ sum_of outstanding_cents (select_all (listed_debt 1 (lunch - 30 * 86400)) till.debts))
unfolding karibu.Analytics.People.accountability karibu.Access.require_roles
    karibu.Analytics.People.add_debts karibu.Analytics.People.slot
    karibu.Analytics.People.add_orders karibu.Analytics.People.served
    karibu.Analytics.People.credited karibu.Order.amount_paid_cents
    karibu.Analytics.People.shortfall outstanding_cents karibu.Prelude.Int.◌-ℤ◌ ◌+ℤ◌
    karibu.Analytics.People.credit_on
accountability-adds_up_example =
    accountability-adds_up 30 lunch (boss ∷ waiter ∷ []) boss till held till-IsSound refl

issue_receipt_shared_example :
    (db' : Db) × (issue_receipt 1 waiter 77 till ≡ ok (77, db'))
    × (public_receipt 77 db' ≡ ok (receipt_of paid_ticket))
    × (issue_receipt 1 boss 78 db' ≡ ok (77, db'))
unfolding karibu.Sales.get_scoped_order
issue_receipt_shared_example =
    issue_receipt_shared 1 77 78 waiter boss till paid_ticket refl refl (refl, (refl, tt)) refl
