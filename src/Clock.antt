-- ===== src/Clock.antt =====
-- core/timezone.py: the wall clock of a restaurant. Times are whole seconds since 1970 in UTC; the
-- zone is its offset east of UTC in seconds, which is constant as that of Africa/Nairobi is, and a
-- date is the number of days since 1970.
use karibu.Prelude.{ℕ, ◌+◌, ◌-◌, ◌*◌, ◌/◌, ◌%◌, ◌≤◌, ◌<◌, ◌≡◌, ◌↔◌, arith}

-- `to_local(dt).date()` and `to_local(dt).hour`
abbrev pub local_date : ℕ → ℕ → ℕ
local_date offset dt = (dt + offset) / 86400

abbrev pub local_hour : ℕ → ℕ → ℕ
local_hour offset dt = (dt + offset) % 86400 / 3600

-- midnight of a local date, in UTC
abbrev pub midnight : ℕ → ℕ → ℕ
midnight offset date = date * 86400 - offset

-- `day_bounds_utc`
abbrev pub day_bounds_utc : ℕ → ℕ → ℕ × ℕ
day_bounds_utc offset now =
    let date = local_date offset now in (midnight offset date, midnight offset (date + 1))

-- `days_ago_utc`
abbrev pub days_ago_utc : ℕ → ℕ → ℕ → ℕ
days_ago_utc offset days now = (day_bounds_utc offset (now - days * 86400)).0

-- `strftime("%Y-%m-%d")` of a time as it is stored
abbrev pub utc_date : ℕ → ℕ
utc_date dt = dt / 86400

-- The bounds of today, for a zone at most a day east of UTC and a time at least a day after 1970,
-- hold exactly the times whose local date is that of now.
pub day_bounds_utc_iff :
    (offset now dt : ℕ)
    → offset ≤ 86400
    → 86400 ≤ now
    → ((day_bounds_utc offset now).0 ≤ dt) × (dt < (day_bounds_utc offset now).1)
      ↔ (local_date offset dt ≡ local_date offset now)
day_bounds_utc_iff offset now dt small late = (λ h. omega arith, λ h. omega arith)

-- The start of a day some days ago, for a clock that is that late.
pub days_ago_utc_lem :
    (offset days now : ℕ)
    → offset ≤ 86400
    → (days + 1) * 86400 ≤ now
    → (days_ago_utc offset days now ≡ midnight offset (local_date offset now - days))
      × (days < local_date offset now)
days_ago_utc_lem offset days now small late = (omega arith, omega arith)
