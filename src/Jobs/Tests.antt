-- ===== src/Jobs/Tests.antt =====
-- The theorems on jobs, at concrete runs and calls.
use core_dashboard.Prelude.{ℕ, ◌+◌, ◌≤◌, String, ◌≡◌, refl, true, none, some, Option, List, [], ◌∷◌}
use core_dashboard.Shared.Auth.{AuthUser, operator}
use core_dashboard.Shared.Maps.{lookup, insert}
use core_dashboard.Shared.Sorting.{sort, insert_sorted}
use core_dashboard.Shared.Values.{Number, natural}
use core_dashboard.Jobs.{
  JobRun, pending, completed, trigger_demo, max_steps, map_state, refresh_status, found, list,
  enqueue_demo_job, clamp_steps,
}
use core_dashboard.Jobs.Runs.{clamp_steps-trigger_demo, Outcome, refresh_status-IsRefreshed}
use core_dashboard.Jobs.Token.{
  Event, called, answered, init, run, step, get_access_token, token_answered, fetch_token, return,
}
use core_dashboard.Jobs.Token.SingleFlight.{fetches, answers, returns, waits, calls, run-init}

abbrev user : AuthUser
user = record { sub = some "u1"; email = none; role = operator }

clamp_steps-trigger_demo_case :
    (1 ≤ (trigger_demo user (some (natural 12)) 0 none).0)
    × ((trigger_demo user (some (natural 12)) 0 none).0 ≤ max_steps)
    × ((n : ℕ)
        → ◌≡◌ {A = Option Number} (some (natural 12)) (some (natural n))
        → 1 ≤ n
        → n ≤ max_steps
        → (trigger_demo user (some (natural 12)) 0 none).0 ≡ n)
clamp_steps-trigger_demo_case = clamp_steps-trigger_demo user (some (natural 12)) 0 none

abbrev job : JobRun
job = record { external_id = "7"; status = pending; requested_by = "u1"; created_at = 3 }

refresh-completed :
    refresh_status "1" (some "completed") true (("1", job) ∷ [])
    ≡ found (record job { status = completed }) (("1", record job { status = completed }) ∷ [])
unfolding refresh_status lookup insert map_state
refresh-completed = refl

job_known : lookup "1" (("1", job) ∷ []) ≡ some job
unfolding lookup
job_known = refl

refresh_status-IsRefreshed_case :
    Outcome "1"
      (some "completed")
      true
      job
      (("1", job) ∷ [])
      (refresh_status "1" (some "completed") true (("1", job) ∷ []))
refresh_status-IsRefreshed_case =
    refresh_status-IsRefreshed "1" job (("1", job) ∷ []) job_known (some "completed") true

-- Two calls share a request, a third uses the cache, and a late one asks again.
abbrev polls : List Event
polls =
    called 1 1000
    ∷ called 2 1001
    ∷ answered (some (record { access_token = "t"; expires_in = 60 }))
    ∷ called 3 2000
    ∷ called 4 40000
    ∷ []

run-polls :
    (run polls init).1
    ≡ fetch_token
      ∷ return 1 (some "t")
      ∷ return 2 (some "t")
      ∷ return 3 (some "t")
      ∷ fetch_token
      ∷ []
unfolding run step get_access_token token_answered
run-polls = refl

run-init_example :
    (fetches (run polls init).1 ≤ 1 + answers polls)
    × ((c : ℕ)
        → returns c (run polls init).1 + waits c (run polls init).0.pending_token ≡ calls c polls)
run-init_example = run-init polls

-- Two runs, listed the newer first.
abbrev runs : List (String × JobRun)
runs = ("1", job) ∷ ("2", record job { created_at = 9 }) ∷ []

list-runs : list runs ≡ record job { created_at = 9 } ∷ job ∷ []
unfolding list sort insert_sorted
list-runs = refl

enqueue-default :
    enqueue_demo_job (λ n. "17") 17 "k3x9ab" (trigger_demo user none 17 none).0 ≡ record {
      name = "core-dashboard-metrics-report";
      steps = 5;
      idempotency_key = "core-dashboard-17-k3x9ab";
    }
unfolding trigger_demo clamp_steps
enqueue-default = refl
