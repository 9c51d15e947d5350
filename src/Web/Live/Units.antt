-- ===== src/Web/Live/Units.antt =====
-- What an uptime shows.
use core_dashboard.Prelude.{ℕ, ◌+◌, ◌*◌, ◌≤◌, ◌<◌, ◌≡◌, subst, ◌-◌, ◌/◌, arith, some}
use core_dashboard.Web.Live.{
  Uptime, days_hours, hours_minutes, minutes_seconds, only_seconds, units_of, format_uptime,
}

-- The units are in their ranges, the first is not 0, and they are the seconds but for the part of
-- the smaller unit that is not shown.
abbrev pub Shows : ℕ → Uptime → Type 0
Shows total (days_hours d h) =
    (1 ≤ d) × (h < 24) × (d * 86400 + h * 3600 ≤ total) × (total < d * 86400 + h * 3600 + 3600)
Shows total (hours_minutes h m) =
    (1 ≤ h) × (h < 24) × (m < 60) × (h * 3600 + m * 60 ≤ total) × (total < h * 3600 + m * 60 + 60)
Shows total (minutes_seconds m s) = (1 ≤ m) × (m < 60) × (s < 60) × (total ≡ m * 60 + s)
Shows total (only_seconds s) = (s < 60) × (total ≡ s)

units_of-Shows : (total : ℕ) → Shows total (units_of total)
unfolding units_of
units_of-Shows total = ground arith

-- The units shown are in their ranges and give the seconds since the start, rounded down to the
-- smaller unit shown.
pub format_uptime-Shows :
    (started_at now : ℕ) (shown : Uptime)
    → format_uptime (some started_at) now ≡ some shown
    → Shows ((now - started_at) / 1000) shown
unfolding format_uptime
format_uptime-Shows started_at now shown e =
    let total = (now - started_at) / 1000 in
    let same : units_of total ≡ shown = ground arith in
    subst (Shows total) same (units_of-Shows total)
