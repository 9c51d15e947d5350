-- ===== src/Web/Login/Tests.antt =====
-- Signing in, on concrete runs.
use core_dashboard.Prelude.{◌≡◌, refl, none, some, List, [], ◌∷◌, All}
use core_dashboard.Web.Login.{
  api_error, returned, login, verify_two_factor, new, Event, submitted, login_answered,
  verify_answered, step, run, on_submit, logged_in, verified,
}
use core_dashboard.Web.Login.TwoFactor.{IsGiven, run-IsGiven}

-- The credentials, a challenge, a wrong code, and the code again.
abbrev second_try : List Event
second_try =
    submitted
    ∷ login_answered (returned (some "challenge"))
    ∷ submitted
    ∷ verify_answered (api_error "codigo invalido")
    ∷ submitted
    ∷ []

second_try_requests :
    (run second_try new).1
    ≡ login ∷ verify_two_factor "challenge" ∷ verify_two_factor "challenge" ∷ []
unfolding run step on_submit logged_in verified
second_try_requests = refl

run-IsGiven_example : All (IsGiven none second_try) (run second_try new).1
run-IsGiven_example = run-IsGiven second_try
