-- ===== src/Health/Checks.antt =====
-- What the health of the dependencies says, and how long it takes.
use core_dashboard.Prelude.{
  ℕ, ◌+◌, ◌≤◌, ◌<◌, ◌≡◌, ◌↔◌, refl, String, Bool, true, false, Option, none, some, [], ◌∷◌, arith,
  if◌then◌else◌,
}
use core_dashboard.Shared.Fetch.{is_set, is_ok}
use core_dashboard.Health.{
  DependencyName, ok, down, DependencyCheck, Fetching, answered, failed, silent, listed, never,
  check_http_health, check_taskforge, with_taskforge, check, cci_auth_service, taskforge,
  ops_notify_bot, result,
}

-- A service is well exactly if its URL is set and it gives a good status before the timeout.
abbrev pub IsWell : Option String → ℕ → Fetching → Type 0
IsWell base_url late (answered status after) =
    (is_set base_url ≡ true) × (is_ok status ≡ true) × (after < 3000 + late)
IsWell base_url late (failed after) = ⊥
IsWell base_url late silent = ⊥

taskforge-listed :
    (a b : DependencyCheck) (good : Bool) (after : ℕ)
    → with_taskforge a (check_taskforge (listed good after)) b
      ≡ some (a ∷ result taskforge (if good then ok else down) after ∷ b ∷ [])
taskforge-listed a b true after = refl
taskforge-listed a b false after = refl

http-IsWell :
    (name : DependencyName) (base_url : Option String) (late : ℕ) (fetching : Fetching)
    → (check_http_health name base_url late fetching).status ≡ ok
    → IsWell base_url late fetching
unfolding check_http_health
http-IsWell name base_url late (answered status after) e =
    (ground arith, ground arith, ground arith)
http-IsWell name base_url late (failed after) e = absurd (ground arith)
http-IsWell name base_url late silent e = absurd (ground arith)

IsWell-http :
    (name : DependencyName) (base_url : Option String) (late : ℕ) (fetching : Fetching)
    → IsWell base_url late fetching
    → (check_http_health name base_url late fetching).status ≡ ok
unfolding check_http_health
IsWell-http name base_url late (answered status after) (h, k, l) = ground arith
IsWell-http name base_url late (failed after) h = absurd h
IsWell-http name base_url late silent h = absurd h

latency-le :
    (name : DependencyName) (base_url : Option String) (late : ℕ) (fetching : Fetching)
    → (check_http_health name base_url late fetching).latency_ms ≤ 3000 + late
unfolding check_http_health
latency-le name base_url late (answered status after) = ground arith
latency-le name base_url late (failed after) = ground arith
latency-le name base_url late silent = ground arith

http-name :
    (name : DependencyName) (base_url : Option String) (late : ℕ) (fetching : Fetching)
    → (check_http_health name base_url late fetching).name ≡ name
unfolding check_http_health
http-name name base_url late (answered status after) = ground arith
http-name name base_url late (failed after) = ground arith
http-name name base_url late silent = ground arith

-- What is reported of a service over HTTP.
pub record IsReport (name : DependencyName) (base_url : Option String) (late : ℕ)
    (fetching : Fetching) (a : DependencyCheck) : Type 0 where
  pub named : a.name ≡ name
  pub well : (a.status ≡ ok) ↔ IsWell base_url late fetching
  pub bounded : a.latency_ms ≤ 3000 + late

http-IsReport :
    (name : DependencyName) (base_url : Option String) (late : ℕ) (fetching : Fetching)
    → IsReport name base_url late fetching (check_http_health name base_url late fetching)
http-IsReport name base_url late fetching = record {
  named = http-name name base_url late fetching;
  well = (http-IsWell name base_url late fetching, IsWell-http name base_url late fetching);
  bounded = latency-le name base_url late fetching;
}

-- Once taskforge's listing has ended, well or not, the authentication service, taskforge and the
-- bot are reported by these names, in this order: the first and the last as well exactly if their
-- URL is set and they give a good status before the callback of the timeout of three seconds, with
-- a latency up to then; taskforge as well exactly if its listing returns.
pub check-listed :
    (auth_url bot_url : Option String) (late : ℕ) (auth bot : Fetching) (good : Bool) (after : ℕ)
    → (a : DependencyCheck) × (b : DependencyCheck) × (check auth_url bot_url late auth
          (listed good after)
          bot
        ≡ some (a ∷ result taskforge (if good then ok else down) after ∷ b ∷ []))
      × IsReport cci_auth_service auth_url late auth a
      × IsReport ops_notify_bot bot_url late bot b
unfolding check
check-listed auth_url bot_url late auth bot good after = (
  check_http_health cci_auth_service auth_url late auth,
  check_http_health ops_notify_bot bot_url late bot,
  taskforge-listed _ _ good after,
  http-IsReport cci_auth_service auth_url late auth,
  http-IsReport ops_notify_bot bot_url late bot,
)

-- Nothing is reported while taskforge does not answer, whatever the others do.
pub check-never :
    (auth_url bot_url : Option String) (late : ℕ) (auth bot : Fetching)
    → check auth_url bot_url late auth never bot ≡ none
unfolding check
check-never auth_url bot_url late auth bot = refl
