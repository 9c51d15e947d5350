-- ===== src/Metrics/Windows.antt =====
-- The bounds of the windows and of the points that a series can have.
use core_dashboard.Prelude.{ℕ, ◌+◌, ◌*◌, ◌%◌, ◌≤◌, ◌<◌, ◌≡◌, Option, some, arith}
use core_dashboard.Shared.Values.{Number}
use core_dashboard.Metrics.{parse_positive_int, live_range, max_range_points, bucket_start}

-- A window of minutes that the controller lets pass has steps of at least half a minute, and a
-- step for each point of the range's bound: 240 steps reach over the whole window.
pub live_range-parse_positive_int :
    (raw : Option Number) (minutes now : ℕ)
    → parse_positive_int raw 60 360 ≡ some minutes
    → (1 ≤ minutes)
      × (minutes ≤ 360)
      × (30 ≤ (live_range now minutes).step_sec)
      × (minutes * 60 ≤ max_range_points * (live_range now minutes).step_sec)
unfolding parse_positive_int live_range
live_range-parse_positive_int raw minutes now e =
    (ground arith, ground arith, omega arith, omega arith)

-- The bucket of a rollup is over, by less than a bucket, and starts at a multiple of five minutes.
pub bucket_start-bounds :
    (now : ℕ)
    → 300000 ≤ now
    → (bucket_start now + 300000 ≤ now)
      × (now < bucket_start now + 600000)
      × (bucket_start now % 300000 ≡ 0)
bucket_start-bounds now h = (omega arith, omega arith, omega arith)
