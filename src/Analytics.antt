-- ===== src/Analytics.antt =====
-- routers/analytics.py: the figures of the dashboard; Reports has the sales report and its print.
-- Amounts are in cents, where the responses divide by 100; the clock is read once for a request.
pub mod Reports
pub mod Series
pub mod Exact
pub mod Print
pub mod Today
pub mod People
pub mod Totals
use karibu.Prelude.{
  ℕ, ◌+◌, ◌-◌, ◌*◌, String, Bool, true, false, ◌&&◌, not, Option, none, some, List, [], ◌∷◌, ◌++◌,
  map, leb, ltb, ◌==◌, str_eq, if◌then◌else◌, select, select_all, update, sum_of, length, is_id,
  round_half_even, collect, get_at, take, order_desc, count_from,
}
use karibu.Prelude.Int.{ℤ, pos, neg}
use karibu.Api.{Result, ok, ◌>>=◌}
use karibu.Access.{User, UserRole, is_manager, require_roles, managers}
use karibu.Order.{
  Order, OrderItem, OrderStatus, Payment, PaymentMethod, amount_paid_cents, is_cancelled,
}
use karibu.Clock.{local_date, local_hour, day_bounds_utc, days_ago_utc, utc_date}
use karibu.Db.{Db}

-- `select(Payment).join(Order).where(Order.restaurant_id == rid)`
unfoldable pub takings : ℕ → List Order → List Payment
takings rid [] = []
takings rid (o ∷ os) =
    let rest = takings rid os in if o.restaurant_id == rid then o.payments ++ rest else rest

abbrev pub cents : Payment → ℕ
cents p = p.amount_cents

abbrev pub within : ℕ → ℕ → Payment → Bool
within start end p = leb start p.received_at && ltb p.received_at end

abbrev pub received_since : ℕ → Payment → Bool
received_since start p = leb start p.received_at

-- `sales_between` of `dashboard`
unfoldable pub sales_between : ℕ → ℕ → List Payment → ℕ
sales_between start end ps = sum_of cents (select_all (within start end) ps)

-- tenths of a percent, from `round((today - yesterday) / yesterday * 100, 1)`
unfoldable pub change_pct : ℕ → ℕ → ℤ
unfolding round_half_even
change_pct today yesterday =
    if leb yesterday 0
    then pos 0
    else if leb yesterday today
    then pos (round_half_even ((today - yesterday) * 1000) yesterday)
    else neg (pos (round_half_even ((yesterday - today) * 1000) yesterday))

-- `OrderStatus.OPEN`, and `OrderStatus.COMPLETED`
abbrev pub is_open : OrderStatus → Bool
is_open OrderStatus.completed = false
is_open OrderStatus.cancelled = false
is_open _ = true

abbrev pub is_completed : OrderStatus → Bool
is_completed OrderStatus.completed = true
is_completed _ = false

unfoldable pub count_orders : (Order → Bool) → ℕ → List Order → ℕ
count_orders test rid os = length (select_all (λ (o : Order). o.restaurant_id == rid && test o) os)

-- `Order.created_at` from a time on, and before another
abbrev pub placed_since : ℕ → Order → Bool
placed_since start o = leb start o.created_at

abbrev pub placed_between : ℕ → ℕ → Order → Bool
placed_between start end o = leb start o.created_at && ltb o.created_at end

-- the amounts of today by local hour, in the window of the chart
unfoldable pub hourly_sales : ℕ → ℕ × ℕ → List Payment → List (ℕ × ℕ)
hourly_sales offset (start, end) ps =
    let buckets =
      collect (λ a b. a == b) (λ (p : Payment). local_hour offset p.received_at) cents
        (select_all (within start end) ps) [] in
    map (λ h. (h, get_at h buckets)) (count_from 7 15)

-- the amounts of twelve local days
unfoldable pub sales_trend : ℕ → ℕ → List Payment → List ℕ
sales_trend offset now ps =
    let start = days_ago_utc offset 11 now in
    let totals =
      collect (λ a b. a == b) (λ (p : Payment). local_date offset p.received_at) cents
        (select_all (received_since start) ps) [] in
    map (λ day. get_at day totals) (count_from (local_date offset start) 12)

-- the lines of the orders of a restaurant under a condition
unfoldable pub lines_sold : (Order → Bool) → ℕ → List Order → List OrderItem
lines_sold test rid [] = []
lines_sold test rid (o ∷ os) =
    let rest = lines_sold test rid os in
    if o.restaurant_id == rid && test o then o.items ++ rest else rest

-- quantities by name; the names are those that the lines were sold under
unfoldable pub sold_by_name : List OrderItem → List (String × ℕ)
sold_by_name is =
    collect str_eq (λ (li : OrderItem). li.name_snapshot) (λ (li : OrderItem). li.quantity) is []

abbrev pub is_live_order : Order → Bool
is_live_order o = not (is_cancelled o.status)

-- `top_items` of `dashboard`, without the amounts
unfoldable pub top_items : ℕ × ℕ → ℕ → List Order → List (String × ℕ)
unfolding sold_by_name lines_sold
top_items (start, end) rid os = take 5 (
    order_desc (λ e. e.1)
      (sold_by_name (lines_sold (λ o. placed_between start end o && is_live_order o) rid os)))

-- the orders that a server took, each with the id of the server
unfoldable by_server : List Order → List (ℕ × Order)
by_server [] = []
by_server (o ∷ os) =
    let rest = by_server os in elim o.server_id [ none ↦ rest | some key ↦ (key, o) ∷ rest ]

-- `staff_today`: for each server the number of orders and what was paid on them
unfoldable pub staff_today : ℕ × ℕ → ℕ → List Order → List (ℕ × ℕ × ℕ)
unfolding by_server
staff_today (start, end) rid os =
    let rows = by_server (
      select_all (λ o. o.restaurant_id == rid && (placed_between start end o && is_live_order o))
        os) in
    let counts = collect (λ a b. a == b) (λ (e : ℕ × Order). e.0) (λ e. 1) rows [] in
    let sales =
      collect (λ a b. a == b) (λ (e : ℕ × Order). e.0)
        (λ (e : ℕ × Order). sum_of cents e.1.payments) rows [] in
    take 6 (
      order_desc (λ (e : ℕ × ℕ × ℕ). e.2)
        (map (λ (e : ℕ × ℕ). (e.0, get_at e.0 counts, e.1)) sales))

-- `live_orders`: the latest of those that are open
unfoldable pub live_orders : ℕ → List Order → List Order
live_orders rid os = take 6 (
    order_desc (λ (o : Order). o.created_at)
      (select_all (λ o. o.restaurant_id == rid && is_open o.status) os))

-- what a manager sees of the dashboard, and what everybody sees
pub record MoneyToday : Type 0 where
  pub total_sales : ℕ
  pub sales_change_pct : ℤ
  pub hourly : List (ℕ × ℕ)
  pub trend : List ℕ
  pub top : List (String × ℕ)
  pub staff : List (ℕ × ℕ × ℕ)

pub record Dashboard : Type 0 where
  pub active_orders : ℕ
  pub completed_orders : ℕ
  pub live : List Order
  pub money : Option MoneyToday

-- the part that `if user.role in UserRole.MANAGERS` adds
unfoldable pub takings_today : ℕ → ℕ → ℕ → List Order → MoneyToday
takings_today offset now rid os =
    let ps = takings rid os in
    let today = day_bounds_utc offset now in
    let today_sales = sales_between today.0 today.1 ps in
    record {
      total_sales = today_sales;
      sales_change_pct =
          change_pct today_sales (sales_between (days_ago_utc offset 1 now) today.0 ps);
      hourly = hourly_sales offset today ps;
      trend = sales_trend offset now ps;
      top = top_items today rid os;
      staff = staff_today today rid os;
    }

-- `dashboard`
unfoldable pub dashboard : ℕ → ℕ → User → Db → Dashboard
dashboard offset now user db =
    let rid = user.restaurant_id in
    let (start, end) = day_bounds_utc offset now in
    record {
      active_orders = count_orders (λ o. is_open o.status) rid db.orders;
      completed_orders =
          count_orders (λ o. is_completed o.status && placed_between start end o) rid db.orders;
      live = live_orders rid db.orders;
      money = if is_manager user.role then some (takings_today offset now rid db.orders) else none;
    }
