-- ===== src/Analytics/Today.antt =====
-- The figures of `dashboard` (routers/analytics.py) against the sums of the database.
use karibu.Prelude.{
  ℕ, ◌+◌, ◌-◌, ◌*◌, ◌≤◌, ◌<◌, ◌≡◌, refl, ◌∙◌, sym, ap, arith, List, [], ◌∷◌, map, ◌==◌,
  if◌then◌else◌, select_all, sum_of, count_from, collect, get_at, get_at-collect, some, true,
  Bool-cases, inl, inr,
}
use mathlib.Core.Option.{some-injective, none-ne-some}
use karibu.Access.{User, UserRole, is_manager}
use karibu.Order.{Payment}
use karibu.Clock.{local_date, local_hour, midnight, days_ago_utc, days_ago_utc_lem}
use karibu.Db.{Db}
use karibu.Analytics.{
  cents, within, received_since, sales_between, takings, hourly_sales, sales_trend, MoneyToday,
  takings_today, dashboard,
}
use karibu.Analytics.Series.{map-count_from, on_date-in_window}
use karibu.Analytics.Exact.{day_sales, local_date-midnight}

-- The payments of an hour of a day are those between its ends.
on_hour :
    (offset day hour : ℕ) (ps : List Payment)
    → offset ≤ day * 86400
    → hour < 24
    → sum_of
        (λ (p : Payment). if local_hour offset p.received_at == hour then cents p else 0)
        (select_all (within (midnight offset day) (midnight offset (day + 1))) ps)
      ≡ sales_between
          (midnight offset day + hour * 3600)
          (midnight offset day + (hour + 1) * 3600)
          ps
unfolding sales_between
on_hour offset day hour [] late small = refl
on_hour offset day hour (p ∷ ps) late small = ground (arith, on_hour offset day hour ps late small)

abbrev by_hour : ℕ → List Payment → List (ℕ × ℕ)
by_hour offset ps =
    collect (λ a b. a == b) (λ (p : Payment). local_hour offset p.received_at) cents ps []

abbrev by_date : ℕ → List Payment → List (ℕ × ℕ)
by_date offset ps =
    collect (λ a b. a == b) (λ (p : Payment). local_date offset p.received_at) cents ps []

abbrev pub hour_sales : ℕ → ℕ → ℕ → List Payment → ℕ
hour_sales offset day h ps =
    sales_between (midnight offset day + h * 3600) (midnight offset day + (h + 1) * 3600) ps

abbrev window_of : ℕ → ℕ → List Payment → List Payment
window_of offset day ps = select_all (within (midnight offset day) (midnight offset (day + 1))) ps

hour_total :
    (offset day h : ℕ) (ps : List Payment)
    → offset ≤ day * 86400
    → h < 24
    → get_at h (by_hour offset (window_of offset day ps)) ≡ hour_sales offset day h ps
hour_total offset day h ps late small = omega (
  arith,
  get_at-collect (λ (p : Payment). local_hour offset p.received_at) cents h
      (window_of offset day ps) [],
  on_hour offset day h ps late small,
)

day_total :
    (offset first d : ℕ) (ps : List Payment)
    → offset ≤ first * 86400
    → first ≤ d
    → get_at d (by_date offset (select_all (received_since (midnight offset first)) ps))
      ≡ day_sales offset d ps
day_total offset first d ps late after = omega (
  arith,
  get_at-collect (λ (p : Payment). local_date offset p.received_at) cents d
      (select_all (received_since (midnight offset first)) ps) [],
  on_date-in_window offset (midnight offset first) d ps (omega arith) (omega arith),
)

hourly_sales-IsExact :
    (offset day : ℕ) (ps : List Payment)
    → offset ≤ day * 86400
    → hourly_sales offset (midnight offset day, midnight offset (day + 1)) ps
      ≡ map (λ h. (h, hour_sales offset day h ps)) (count_from 7 15)
unfolding hourly_sales
hourly_sales-IsExact offset day ps late =
    map-count_from (λ h. (h, get_at h (by_hour offset (window_of offset day ps))))
      (λ h. (h, hour_sales offset day h ps)) 7 15
      (λ h after before. ap (λ m. (h, m)) (hour_total offset day h ps late (omega arith)))

sales_trend-IsExact :
    (offset now first : ℕ) (ps : List Payment)
    → days_ago_utc offset 11 now ≡ midnight offset first
    → offset ≤ first * 86400
    → sales_trend offset now ps ≡ map (λ d. day_sales offset d ps) (count_from first 12)
unfolding sales_trend
sales_trend-IsExact offset now first ps at late =
    rw (at, local_date-midnight offset first late)
      (map-count_from
        (λ d. get_at d (by_date offset (select_all (received_since (midnight offset first)) ps)))
        (λ d. day_sales offset d ps) first 12
        (λ d after before. day_total offset first d ps late after))

manager_only : (role : UserRole) → is_manager role ≡ true → role ≡ UserRole.manager
unfolding is_manager
manager_only role h = ground arith

-- Only a manager is shown money on the dashboard; where it is shown, at a time at least twelve
-- days after 1970, the sales of today, the twelve entries of the trend and the hours of the chart
-- are the sums of the payments between the midnights, or the full hours, that they stand for.
pub dashboard-IsExact :
    (offset now : ℕ) (user : User) (db : Db) (m : MoneyToday)
    → offset ≤ 86400
    → 12 * 86400 ≤ now
    → (dashboard offset now user db).money ≡ some m
    → (user.role ≡ UserRole.manager)
      × (m.total_sales
          ≡ day_sales offset (local_date offset now) (takings user.restaurant_id db.orders))
      × (m.trend
          ≡ map
              (λ d. day_sales offset d (takings user.restaurant_id db.orders))
              (count_from (local_date offset now - 11) 12))
      × (m.hourly
          ≡ map
              (λ h. (
                h,
                hour_sales offset (local_date offset now) h (takings user.restaurant_id db.orders),
              ))
              (count_from 7 15))
unfolding dashboard takings_today
dashboard-IsExact offset now user db m small late shown =
    let (start, before) = days_ago_utc_lem offset 11 now small (omega arith) in
    let ps = takings user.restaurant_id db.orders in
    elim (Bool-cases (is_manager user.role)) [
      | inl manages ↦
          let same : takings_today offset now user.restaurant_id db.orders ≡ m =
            some-injective _ _ (rw manages at shown) in
          (
            manager_only user.role manages,
            sym (ap (λ (t : MoneyToday). t.total_sales) same),
            sym (ap (λ (t : MoneyToday). t.trend) same)
                ∙ sales_trend-IsExact offset now _ ps start (omega arith),
            sym (ap (λ (t : MoneyToday). t.hourly) same)
                ∙ hourly_sales-IsExact offset (local_date offset now) ps (omega arith),
          )
      | inr refuses ↦ absurd (none-ne-some _ (rw refuses at shown))
    ]
