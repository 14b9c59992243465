-- ===== src/Analytics/Exact.antt =====
-- The series of the sales report, of its print and of the dashboard, against the sums of the
-- database that they stand for.
use karibu.Prelude.{
  ℕ, ◌+◌, ◌-◌, ◌*◌, ◌≤◌, ◌≡◌, ◌∙◌, sym, ap, arith, List, [], map, select_all, sum_of, count_from,
  sum_of-collect,
}
use mathlib.Core.Path.{subst}
use karibu.Api.{ok, ok-injective}
use karibu.Access.{User}
use karibu.Access.Laws.{behind_guard}
use karibu.Order.{Payment, PaymentMethod}
use karibu.Clock.{local_date, midnight, day_bounds_utc, days_ago_utc_lem}
use karibu.Db.{Db}
use karibu.Analytics.{cents, received_since, sales_between, takings}
use karibu.Analytics.Reports.{
  SalesReport, sales_report, by_method, same_method, fill_daily, zero_days, in_window, window_start,
}
use karibu.Analytics.Series.{
  map-count_from, on_date, fill_daily-map, on_date-in_window, taken_since, taken_since-days,
}

-- what the database sums for a local date
abbrev pub day_sales : ℕ → ℕ → List Payment → ℕ
day_sales offset day ps = sales_between (midnight offset day) (midnight offset (day + 1)) ps

-- The rows of a series over a window that starts at the midnight of its first date.
fill_daily-window :
    (offset first n : ℕ) (ps : List Payment)
    → offset ≤ first * 86400
    → fill_daily offset
        (select_all (received_since (midnight offset first)) ps)
        (zero_days (count_from first n))
      ≡ map (λ d. (d, day_sales offset d ps)) (count_from first n)
fill_daily-window offset first n ps late =
    fill_daily-map offset (λ _. 0) (count_from first n)
      (select_all (received_since (midnight offset first)) ps)
    ∙ map-count_from
        (λ d. (d, 0 + on_date offset d (select_all (received_since (midnight offset first)) ps)))
        (λ d. (d, day_sales offset d ps)) first n
        (λ d after before.
          ap (λ m. (d, m))
            (omega (
              arith,
              on_date-in_window offset (midnight offset first) d ps (omega arith) (omega arith),
            )))

-- The first date of the window of a report over some days.
pub window_first :
    (offset days now : ℕ)
    → offset ≤ 86400
    → 1 ≤ days
    → days * 86400 ≤ now
    → (first : ℕ) × (window_start offset days now ≡ midnight offset first)
      × (first + days ≡ local_date offset now + 1)
      × (1 ≤ first)
window_first offset days now small some_days late =
    let (start, before) = days_ago_utc_lem offset (days - 1) now small (omega arith) in
    (local_date offset now - (days - 1), start, omega arith, omega arith)

pub local_date-midnight :
    (offset day : ℕ) → offset ≤ day * 86400 → local_date offset (midnight offset day) ≡ day
local_date-midnight offset day late = omega arith

-- The same from the start of the window as the code computes it, and what the rows come to.
series_of :
    (offset first n start : ℕ) (ps : List Payment)
    → start ≡ midnight offset first
    → offset ≤ first * 86400
    → fill_daily offset
        (select_all (received_since start) ps)
        (zero_days (count_from (local_date offset start) n))
      ≡ map (λ d. (d, day_sales offset d ps)) (count_from first n)
series_of offset first n start ps at late =
    rw (at, local_date-midnight offset first late) (fill_daily-window offset first n ps late)

total_of :
    (offset first n start end : ℕ) (ps : List Payment) (rows : List (ℕ × ℕ))
    → start ≡ midnight offset first
    → end ≡ first + n
    → rows ≡ map (λ d. (d, day_sales offset d ps)) (count_from first n)
    → taken_since start ps ≡ sum_of (λ (e : ℕ × ℕ). e.1) rows + taken_since (midnight offset end) ps
total_of offset first n start end ps rows at ends are =
    rw (at, ends, are) (taken_since-days offset first n ps)

-- The split by method loses no amount.
sum_of-by_method :
    (ps : List Payment) → sum_of (λ (e : PaymentMethod × ℕ). e.1) (by_method ps) ≡ sum_of cents ps
unfolding by_method
sum_of-by_method ps =
    let all = sum_of-collect same_method (λ (p : Payment). p.method) cents ps [] in
    omega (arith, all)

-- The daily series of a sales report that is answered, for a clock that is as late as its days,
-- gives for each local day of the window the sum of the payments between its midnights; with what
-- is dated after today it comes to the gross revenue, as the split by method does alone.
pub sales_report-IsExact :
    (offset days now : ℕ) (user : User) (db : Db) (r : SalesReport)
    → offset ≤ 86400
    → 1 ≤ days
    → days * 86400 ≤ now
    → sales_report offset days now user db ≡ ok r
    → (r.revenue_series
        ≡ map
            (λ d. (d, day_sales offset d (takings user.restaurant_id db.orders)))
            (count_from (local_date offset now + 1 - days) days))
      × (r.gross_revenue
          ≡ sum_of (λ (e : ℕ × ℕ). e.1) r.revenue_series
            + taken_since (day_bounds_utc offset now).1 (takings user.restaurant_id db.orders))
      × (sum_of (λ e. e.1) r.payment_methods ≡ r.gross_revenue)
unfolding sales_report
sales_report-IsExact offset days now user db r small some_days late done =
    let (inner, _, _) = behind_guard user _ done in
    let (first, start, last, after) = window_first offset days now small some_days late in
    let ps = takings user.restaurant_id db.orders in
    let rows = series_of offset first days (window_start offset days now) ps start (omega arith) in
    let named : local_date offset now + 1 - days ≡ first = omega arith in
    let ends : local_date offset now + 1 ≡ first + days = omega arith in
    subst
      (λ (s : SalesReport).
        (s.revenue_series
          ≡ map (λ d. (d, day_sales offset d ps))
              (count_from (local_date offset now + 1 - days) days))
        × (s.gross_revenue
            ≡ sum_of (λ (e : ℕ × ℕ). e.1) s.revenue_series
              + taken_since (day_bounds_utc offset now).1 ps)
        × (sum_of (λ e. e.1) s.payment_methods ≡ s.gross_revenue))
      (ok-injective inner)
      (
        rows ∙ ap (λ k. map (λ d. (d, day_sales offset d ps)) (count_from k days)) (sym named),
        total_of offset first days (window_start offset days now) (local_date offset now + 1) ps _
            start ends rows,
        sum_of-by_method (in_window (window_start offset days now) user.restaurant_id db.orders),
      )
