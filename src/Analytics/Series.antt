-- ===== src/Analytics/Series.antt =====
-- What the dated series of routers/analytics.py sum: the loops over the payments give, day by day
-- and hour by hour, the sums that the database would.
use karibu.Prelude.{
  ℕ, zero, suc, ◌+◌, ◌*◌, ◌≤◌, ◌<◌, ◌≡◌, refl, ◌∙◌, ap, arith, List, [], ◌∷◌, map, ◌==◌,
  if◌then◌else◌, select_all, sum_of, count_from,
}
use karibu.Order.{Payment}
use karibu.Clock.{local_date, midnight}
use karibu.Analytics.{cents, received_since, sales_between}
use karibu.Analytics.Reports.{add_daily, fill_daily}

module _ {ℓ} {A : Type ℓ} where
  pub map-count_from :
      (f g : ℕ → A) (first n : ℕ)
      → ((d : ℕ) → first ≤ d → d < first + n → f d ≡ g d)
      → map f (count_from first n) ≡ map g (count_from first n)
  map-count_from f g first zero same = refl
  map-count_from f g first (suc n) same =
      rw
        (
          same first (omega arith) (omega arith),
          map-count_from f g (first + 1) n (λ d h k. same d (omega arith) (omega arith)),
        )
        refl

  pub map-same : (f g : ℕ → A) (keys : List ℕ) → ((d : ℕ) → f d ≡ g d) → map f keys ≡ map g keys
  map-same f g [] same = refl
  map-same f g (d ∷ keys) same = rw (same d, map-same f g keys same) refl

-- what the payments of a local date come to
abbrev pub on_date : ℕ → ℕ → List Payment → ℕ
on_date offset day =
    sum_of (λ (p : Payment). if local_date offset p.received_at == day then cents p else 0)

add_daily-map :
    (f : ℕ → ℕ) (key amount : ℕ) (keys : List ℕ)
    → add_daily key amount (map (λ d. (d, f d)) keys)
      ≡ map (λ d. (d, f d + (if key == d then amount else 0))) keys
unfolding add_daily
add_daily-map f key amount [] = refl
add_daily-map f key amount (d ∷ keys) = ground (arith, add_daily-map f key amount keys)

pub fill_daily-map :
    (offset : ℕ) (f : ℕ → ℕ) (keys : List ℕ) (ps : List Payment)
    → fill_daily offset ps (map (λ d. (d, f d)) keys)
      ≡ map (λ d. (d, f d + on_date offset d ps)) keys
unfolding fill_daily
fill_daily-map offset f keys [] =
    map-same (λ d. (d, f d)) (λ d. (d, f d + 0)) keys (λ d. ap (λ n. (d, n)) (omega arith))
fill_daily-map offset f keys (p ∷ ps) =
    let key = local_date offset p.received_at in
    let more = λ (d : ℕ). f d + (if key == d then cents p else 0) in
    rw (add_daily-map f key (cents p) keys) (fill_daily-map offset more keys ps)
    ∙ map-same (λ d. (d, more d + on_date offset d ps)) _ keys (λ d. ap (λ n. (d, n)) (omega arith))

-- The payments of a date that is in the window are those between its midnights.
pub on_date-in_window :
    (offset start day : ℕ) (ps : List Payment)
    → offset ≤ day * 86400
    → start ≤ midnight offset day
    → on_date offset day (select_all (received_since start) ps)
      ≡ sales_between (midnight offset day) (midnight offset (day + 1)) ps
unfolding sales_between
on_date-in_window offset start day [] late inside = refl
on_date-in_window offset start day (p ∷ ps) late inside =
    ground (arith, on_date-in_window offset start day ps late inside)

abbrev pub taken_since : ℕ → List Payment → ℕ
taken_since start ps = sum_of cents (select_all (received_since start) ps)

pub taken_since-split :
    (start end : ℕ) (ps : List Payment)
    → start ≤ end
    → taken_since start ps ≡ sales_between start end ps + taken_since end ps
unfolding sales_between
taken_since-split start end [] before = refl
taken_since-split start end (p ∷ ps) before = ground (arith, taken_since-split start end ps before)

-- The days of a range, one after another.
pub taken_since-days :
    (offset first n : ℕ) (ps : List Payment)
    → taken_since (midnight offset first) ps
      ≡ sum_of
          (λ (e : ℕ × ℕ). e.1)
          (map
            (λ d. (d, sales_between (midnight offset d) (midnight offset (d + 1)) ps))
            (count_from first n))
        + taken_since (midnight offset (first + n)) ps
taken_since-days offset first zero ps =
    let same : first + 0 ≡ first = omega arith in rw same (omega arith)
taken_since-days offset first (suc n) ps =
    let next : first + suc n ≡ first + 1 + n = omega arith in
    rw next (
      omega (
        arith,
        taken_since-split (midnight offset first) (midnight offset (first + 1)) ps (omega arith),
        taken_since-days offset (first + 1) n ps,
      ))
