-- ===== src/Analytics/Print.antt =====
-- The daily table of the printed sales report (routers/analytics.py, `sales_pdf`). Its dates are those
-- of the start of the window in UTC, while the payments are entered by their local date.
use karibu.Prelude.{
  ℕ, zero, suc, ◌+◌, ◌-◌, ◌*◌, ◌≤◌, ◌≡◌, refl, ◌∙◌, ap, arith, List, [], ◌∷◌, map, select_all,
  sum_of, count_from,
}
use mathlib.Core.Path.{subst}
use karibu.Api.{ok, ok-injective}
use karibu.Access.{User}
use karibu.Access.Laws.{behind_guard}
use karibu.Order.{Payment}
use karibu.Clock.{local_date, midnight, utc_date, day_bounds_utc}
use karibu.Db.{Db}
use karibu.Analytics.{received_since, takings}
use karibu.Analytics.Reports.{SalesReport, sales_pdf, pdf_days, fill_daily, zero_days, window_start}
use karibu.Analytics.Series.{
  map-count_from, on_date, fill_daily-map, on_date-in_window, taken_since, taken_since-days,
}
use karibu.Analytics.Exact.{day_sales, window_first}

-- East of UTC, the midnight of a date is on the date before.
pdf_days-before :
    (offset day n k : ℕ)
    → 1 ≤ offset
    → offset ≤ 86400
    → map (λ i. utc_date (midnight offset (day + 1) + i * 86400)) (count_from k n)
      ≡ count_from (day + k) n
pdf_days-before offset day zero k east small = refl
pdf_days-before offset day (suc n) k east small =
    let head : utc_date (midnight offset (day + 1) + k * 86400) ≡ day + k = omega arith in
    let next : day + (k + 1) ≡ day + k + 1 = omega arith in
    rw (head, pdf_days-before offset day n (k + 1) east small, next) refl

pdf_days_lem :
    (offset day n : ℕ)
    → 1 ≤ offset
    → offset ≤ 86400
    → pdf_days (midnight offset (day + 1)) n ≡ count_from day n
unfolding pdf_days
pdf_days_lem offset day n east small =
    let plain : day + 0 ≡ day = omega arith in
    pdf_days-before offset day n 0 east small ∙ ap (λ k. count_from k n) plain

-- No payment of the window is of a date before it.
on_date-before :
    (offset day : ℕ) (ps : List Payment)
    → offset ≤ 86400
    → on_date offset day (select_all (received_since (midnight offset (day + 1))) ps) ≡ 0
on_date-before offset day [] small = refl
on_date-before offset day (p ∷ ps) small = ground (arith, on_date-before offset day ps small)

-- The rows: an empty one, and the days of the window but for the last.
rows_of :
    (offset day n : ℕ) (ps : List Payment)
    → 1 ≤ offset
    → offset ≤ 86400
    → fill_daily offset
        (select_all (received_since (midnight offset (day + 1))) ps)
        (zero_days (pdf_days (midnight offset (day + 1)) (suc n)))
      ≡ (day, 0) ∷ map (λ d. (d, day_sales offset d ps)) (count_from (day + 1) n)
rows_of offset day n ps east small =
    let window = select_all (received_since (midnight offset (day + 1))) ps in
    let row : ℕ → ℕ × ℕ = λ d. (d, 0 + on_date offset d window) in
    let empty : 0 + on_date offset day window ≡ 0 =
      omega (arith, on_date-before offset day ps small) in
    let others : map row (count_from (day + 1) n)
        ≡ map (λ d. (d, day_sales offset d ps)) (count_from (day + 1) n) =
      map-count_from row (λ d. (d, day_sales offset d ps)) (day + 1) n
        (λ d after before.
          ap (λ m. (d, m))
            (omega (
              arith,
              on_date-in_window offset (midnight offset (day + 1)) d ps (omega arith) (omega arith),
            ))) in
    ap (λ keys. fill_daily offset window (zero_days keys))
      (pdf_days_lem offset day (suc n) east small)
    ∙ fill_daily-map offset (λ _. 0) (count_from day (suc n)) window
    ∙ (rw (empty, others) refl)

-- The rows of a window of `n + 1` days up to `today`, and what they come to.
printed :
    (offset day n today start first days : ℕ) (ps : List Payment)
    → 1 ≤ offset
    → offset ≤ 86400
    → days ≡ suc n
    → first ≡ day + 1
    → today ≡ first + n
    → start ≡ midnight offset (day + 1)
    → (fill_daily offset (select_all (received_since start) ps) (zero_days (pdf_days start days))
        ≡ (day, 0) ∷ map (λ d. (d, day_sales offset d ps)) (count_from first n))
      × (taken_since start ps
          ≡ sum_of
              (λ (e : ℕ × ℕ). e.1)
              (fill_daily offset
                (select_all (received_since start) ps)
                (zero_days (pdf_days start days)))
            + taken_since (midnight offset today) ps)
printed offset day n today start first days ps east small length_is first_is today_is at =
    let rows = rows_of offset day n ps east small in
    let sums = taken_since-days offset (day + 1) n ps in
    rw (today_is, at, length_is, first_is) (rows, rw rows (omega (arith, sums)))

-- East of UTC, the daily table of the printed report, for a clock that is as late as its days,
-- starts with an empty row for the day before the window and ends with yesterday: the payments
-- since the midnight of today are in the gross revenue and in no row.
pub sales_pdf_leaves_out :
    (offset days now : ℕ) (user : User) (db : Db) (r : SalesReport)
    → 1 ≤ offset
    → offset ≤ 86400
    → 1 ≤ days
    → days * 86400 ≤ now
    → sales_pdf offset days now user db ≡ ok r
    → (r.revenue_series
        ≡ (local_date offset now - days, 0)
          ∷ map
              (λ d. (d, day_sales offset d (takings user.restaurant_id db.orders)))
              (count_from (local_date offset now + 1 - days) (days - 1)))
      × (r.gross_revenue
          ≡ sum_of (λ (e : ℕ × ℕ). e.1) r.revenue_series
            + taken_since (day_bounds_utc offset now).0 (takings user.restaurant_id db.orders))
unfolding sales_pdf
sales_pdf_leaves_out offset days now user db r east small some_days late done =
    let (inner, _, _) = behind_guard user _ done in
    let (first, start, last, after) = window_first offset days now small some_days late in
    subst
      (λ (s : SalesReport).
        (s.revenue_series
          ≡ (local_date offset now - days, 0)
            ∷ map (λ d. (d, day_sales offset d (takings user.restaurant_id db.orders)))
                (count_from (local_date offset now + 1 - days) (days - 1)))
        × (s.gross_revenue
            ≡ sum_of (λ (e : ℕ × ℕ). e.1) s.revenue_series
              + taken_since (day_bounds_utc offset now).0 (takings user.restaurant_id db.orders)))
      (ok-injective inner)
      (printed offset (local_date offset now - days) (days - 1) (local_date offset now)
        (window_start offset days now) (local_date offset now + 1 - days) days
        (takings user.restaurant_id db.orders) east small (omega arith) (omega arith) (omega arith)
        (start ∙ ap (midnight offset) (omega arith)))
