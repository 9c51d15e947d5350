-- ===== src/Actions/Tests.antt =====
-- The theorems on restarts, at concrete attempts.
use core_dashboard.Prelude.{
  ℕ, ◌+◌, ◌≤◌, ◌≡◌, refl, none, some, List, [], ◌∷◌, arith, String, split, trim, codes, ◌↔◌,
}
use core_dashboard.Shared.Events.{ServiceState, running, healthy}
use core_dashboard.Actions.{
  init, get, set, Attempt, Refusal, restart, unknown_container, protected_project, wait_seconds,
  is_protected, check_rate_limit, prune, record_restart, attempt_limited, attempt, global_limit,
}
use core_dashboard.Actions.Guards.{IsAllowed, restart_iff}
use core_dashboard.Actions.Window.{window_count}
use core_dashboard.Actions.Spacing.{
  times, history, history_from, IsLimited, history-IsLimited, window-history,
}

abbrev at : String → ℕ → Attempt
at container now = record { container = container; checked_at = now; recorded_at = now + 1 }

-- The second is too early for its container.
abbrev morning : List Attempt
morning = at "web" 1000 ∷ at "web" 20000 ∷ at "db" 20500 ∷ at "web" 31001 ∷ []

history-morning : history morning ≡ ("web", 31002) ∷ ("db", 20501) ∷ ("web", 1001) ∷ []
unfolding history history_from attempt_limited check_rate_limit record_restart prune get set
history-morning = refl

abbrev managed : String → ServiceState
managed project = record {
  id = "1";
  name = "web";
  service = "web";
  project = project;
  image = "img";
  status = running;
  health = healthy;
  started_at = none;
  uptime_sec = none;
}

refusals :
    ((attempt none (some (managed "cci-auth-service")) (at "web" 5) init).0
      ≡ some protected_project)
    × ((attempt (some "a, shop") (some (managed "shop")) (at "web" 5) init).0
        ≡ some protected_project)
    × ((attempt none none (at "web" 5) init).0 ≡ some unknown_container)
    × ((attempt_limited (at "web" 20000) (record_restart "web" 1000 init)).0
        ≡ some (wait_seconds 11))
unfolding attempt attempt_limited is_protected check_rate_limit record_restart prune get set split
    trim
refusals = (refl, refl, refl, refl)

history-IsLimited_example : IsLimited (history morning)
history-IsLimited_example = history-IsLimited morning (omega arith)

window-history_example : window_count 31002 (times (history morning)) ≤ global_limit
window-history_example = window-history morning 31002 (omega arith)

restart_iff_example :
    ((restart none (codes "web") (some (managed "shop")) (at "web" 5) init).0 ≡ none
      ↔ IsAllowed none (codes "web") (some (managed "shop")) (at "web" 5) init)
    × (((restart none (codes "web") (some (managed "shop")) (at "web" 5) init).0 ≡ none)
        → (restart none (codes "web") (some (managed "shop")) (at "web" 5) init).1
          ≡ record_restart "web" 6 init)
    × ((refusal : Refusal)
        → (restart none (codes "web") (some (managed "shop")) (at "web" 5) init).0 ≡ some refusal
        → (restart none (codes "web") (some (managed "shop")) (at "web" 5) init).1 ≡ init)
restart_iff_example = restart_iff none (codes "web") (some (managed "shop")) (at "web" 5) init
