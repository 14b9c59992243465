-- ===== src/Analytics/Reports.antt =====
-- routers/analytics.py: the sales report and its print, but for their layout.
use karibu.Prelude.{
  ℕ, ◌+◌, ◌-◌, ◌*◌, String, Bool, List, [], ◌∷◌, map, leb, ◌==◌, if◌then◌else◌, select_all, update,
  sum_of, round_half_even, collect, take, order_desc, count_from, ◌&&◌,
}
use karibu.Api.{Result, ok, ◌>>=◌}
use karibu.Access.{User, require_roles, managers}
use karibu.Order.{Order, Payment, PaymentMethod}
use karibu.Clock.{local_date, days_ago_utc, utc_date}
use karibu.Db.{Db}
use karibu.Analytics.{
  takings, cents, received_since, count_orders, is_completed, placed_since, is_live_order,
  lines_sold, sold_by_name,
}

-- a method as the database spells it, by a number
unfoldable pub method_place : PaymentMethod → ℕ
method_place PaymentMethod.cash = 0
method_place PaymentMethod.mpesa = 1
method_place PaymentMethod.card = 2
method_place PaymentMethod.debt = 3

abbrev pub same_method : PaymentMethod → PaymentMethod → Bool
same_method a b = method_place a == method_place b

-- `GROUP BY Payment.method`
unfoldable pub by_method : List Payment → List (PaymentMethod × ℕ)
by_method ps = collect same_method (λ (p : Payment). p.method) cents ps []

-- `round(gross / count)` where there is an order
unfoldable pub average : ℕ → ℕ → ℕ
unfolding round_half_even
average gross count = if leb count 0 then 0 else round_half_even gross count

-- `daily[key] += cents` where `key in daily`
unfoldable pub add_daily : ℕ → ℕ → List (ℕ × ℕ) → List (ℕ × ℕ)
add_daily key amount = update (λ e. e.0 == key) (λ e. (e.0, e.1 + amount))

-- the loop over the payments, by local date
unfoldable pub fill_daily : ℕ → List Payment → List (ℕ × ℕ) → List (ℕ × ℕ)
fill_daily offset [] daily = daily
fill_daily offset (p ∷ ps) daily =
    fill_daily offset ps (add_daily (local_date offset p.received_at) (cents p) daily)

-- a row of zero for each date
abbrev pub zero_days : List ℕ → List (ℕ × ℕ)
zero_days = map (λ day. (day, 0))

pub record SalesReport : Type 0 where
  pub gross_revenue : ℕ
  pub order_count : ℕ
  pub average_order_value : ℕ
  pub payment_methods : List (PaymentMethod × ℕ)
  pub top_sellers : List (String × ℕ)
  pub revenue_series : List (ℕ × ℕ)

abbrev pub window_start : ℕ → ℕ → ℕ → ℕ
window_start offset days now = days_ago_utc offset (days - 1) now

-- the payments of a restaurant since the start of the window
abbrev pub in_window : ℕ → ℕ → List Order → List Payment
in_window start rid os = select_all (received_since start) (takings rid os)

-- `sales_report`
unfoldable pub sales_report : ℕ → ℕ → ℕ → User → Db → Result SalesReport
sales_report offset days now user db = do
  caller ← require_roles managers user
  let rid = caller.restaurant_id
  let start = window_start offset days now
  let payments = in_window start rid db.orders
  let gross = sum_of cents payments
  let count = count_orders (λ o. placed_since start o && is_completed o.status) rid db.orders
  ok (record {
    gross_revenue = gross;
    order_count = count;
    average_order_value = average gross count;
    payment_methods = by_method payments;
    top_sellers =
        take 5
          (order_desc (λ e. e.1) (sold_by_name (lines_sold (placed_since start) rid db.orders)));
    revenue_series =
        fill_daily offset payments (zero_days (count_from (local_date offset start) days));
  })

-- `(window_start + timedelta(days=i)).strftime("%Y-%m-%d")` for each day
unfoldable pub pdf_days : ℕ → ℕ → List ℕ
pdf_days start days = map (λ i. utc_date (start + i * 86400)) (count_from 0 days)

-- `sales_pdf`: the rows that it prints
unfoldable pub sales_pdf : ℕ → ℕ → ℕ → User → Db → Result SalesReport
sales_pdf offset days now user db = do
  caller ← require_roles managers user
  let rid = caller.restaurant_id
  let start = window_start offset days now
  let payments = in_window start rid db.orders
  let gross = sum_of cents payments
  let count = count_orders (λ o. placed_since start o && is_live_order o) rid db.orders
  ok (record {
    gross_revenue = gross;
    order_count = count;
    average_order_value = average gross count;
    payment_methods = order_desc (λ e. e.1) (by_method payments);
    top_sellers = take 10 (
        order_desc (λ e. e.1)
          (sold_by_name (lines_sold (λ o. placed_since start o && is_live_order o) rid db.orders)));
    revenue_series = fill_daily offset payments (zero_days (pdf_days start days));
  })
