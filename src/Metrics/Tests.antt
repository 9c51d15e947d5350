-- ===== src/Metrics/Tests.antt =====
-- The theorems on metrics, at concrete samples.
use core_dashboard.Prelude.{
  ℕ, ◌+◌, ◌*◌, ◌%◌, ◌≤◌, ◌<◌, String, ◌≡◌, refl, Option, none, some, List, [], ◌∷◌, arith,
}
use core_dashboard.Shared.Values.{natural}
use core_dashboard.Metrics.{
  MetricKind, cpu, memory, VectorSample, run_rollup, purge_old_rollups, bucket_start, rows_of,
  create_many, same_key, parse_positive_int, live_range, max_range_points,
}
use core_dashboard.Metrics.Windows.{live_range-parse_positive_int, bucket_start-bounds}
use core_dashboard.Metrics.Rollups.{IsUnique, run_rollup-again}

abbrev half : String → Option ℕ
half text = some 5

abbrev answers : List (MetricKind × Option (List VectorSample))
answers =
    (
      cpu,
      some (record { name = some "web"; value = "0.5" } ∷ record { name = none; value = "1" } ∷ []),
    )
    ∷ (memory, none)
    ∷ []

-- A row for the container that is named, in the bucket that starts at five minutes.
rollup : (run_rollup half 900000 answers []).1 ≡ 1
unfolding run_rollup rows_of create_many same_key
rollup = refl

-- The second run comes four minutes after the first.
run_rollup-again_example :
    (run_rollup half 1140000 answers (run_rollup half 900000 answers []).0
      ≡ ((run_rollup half 900000 answers []).0, 0))
    × (IsUnique {V = ℕ} []
        → IsUnique (purge_old_rollups 1200000 (run_rollup half 900000 answers []).0))
run_rollup-again_example = run_rollup-again half 900000 1140000 1200000 answers [] (omega arith)

live_range-parse_positive_int_case :
    (1 ≤ 90)
    × (90 ≤ 360)
    × (30 ≤ (live_range 900000 90).step_sec)
    × (90 * 60 ≤ max_range_points * (live_range 900000 90).step_sec)
live_range-parse_positive_int_case =
    live_range-parse_positive_int (some (natural 90)) 90 900000 (unfold parse_positive_int in refl)

bucket_start-bounds_case :
    (bucket_start 901000 + 300000 ≤ 901000)
    × (901000 < bucket_start 901000 + 600000)
    × (bucket_start 901000 % 300000 ≡ 0)
bucket_start-bounds_case = bucket_start-bounds 901000 (omega arith)
