-- ===== src/Web/RestartButton/Tests.antt =====
-- The theorems on the restart button, at concrete clicks.
use core_dashboard.Prelude.{◌+◌, ◌*◌, ◌≤◌, ◌≡◌, refl, none, some, List, [], ◌∷◌}
use core_dashboard.Shared.Auth.{AuthUser, operator, has_role}
use core_dashboard.Web.RestartButton.{
  new, Event, clicked, answered, timer, restarted, unconfirm, step, run, click, replied, pick,
}
use core_dashboard.Web.RestartButton.Clicks.{clicks, run-clicks, second_request}

abbrev user : AuthUser
user = record { sub = some "u1"; email = none; role = operator }

abbrev twice : List Event
twice = clicked user (some "t") ∷ clicked user (some "t") ∷ []

abbrev again : List Event
again =
    clicked user (some "t")
    ∷ clicked user (some "t")
    ∷ answered restarted
    ∷ clicked user (some "t")
    ∷ clicked user (some "t")
    ∷ []

-- Two restarts, the second still under way.
run-again : ((run again new).1 ≡ 2) × ((run again new).0.in_flight ≡ 1)
unfolding run step click replied pick has_role
run-again = (refl, refl)

run-clicks_case : 2 * (run again new).1 ≤ clicks again
run-clicks_case = run-clicks again

second_request_example :
    ((run (timer 1 ∷ twice) (run again new).0).1 ≡ 1)
    × ((run (timer 1 ∷ twice) (run again new).0).0.in_flight ≡ (run again new).0.in_flight + 1)
second_request_example =
    unfold run step click replied pick has_role in
    second_request user (some "t") 1 (unconfirm ∷ unconfirm ∷ []) (run again new).0 refl refl refl
      refl
