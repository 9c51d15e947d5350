-- ===== src/Health/Tests.antt =====
-- The health of the dependencies, on concrete answers.
use core_dashboard.Prelude.{◌≡◌, String, true, Option, some, [], ◌∷◌, if◌then◌else◌, refl}
use core_dashboard.Health.{
  ok, down, DependencyCheck, answered, silent, listed, check, check_http_health, cci_auth_service,
  taskforge, ops_notify_bot, result,
}
use core_dashboard.Health.Checks.{IsReport, check-listed}

abbrev url : Option String
url = some "http://cci-auth-service:3000"

bot_is_silent :
    check url url 4 (answered 200 12) (listed true 40) silent
    ≡ some (
        result cci_auth_service ok 12
        ∷ result taskforge ok 40
        ∷ result ops_notify_bot down 3004
        ∷ [])
unfolding check check_http_health
bot_is_silent = refl

check-listed_example :
    (a : DependencyCheck) × (b : DependencyCheck) × (check url url 4
        (answered 200 12)
        (listed true 40)
        silent
      ≡ some (a ∷ result taskforge (if true then ok else down) 40 ∷ b ∷ []))
    × IsReport cci_auth_service url 4 (answered 200 12) a
    × IsReport ops_notify_bot url 4 silent b
check-listed_example = check-listed url url 4 (answered 200 12) silent true 40
