-- ===== src/Health.antt =====
-- apps/api/src/health: the liveness (health.controller.ts) and the health of the services that the
-- api depends on (dependencies-health.service.ts). What each request comes to, and after how many
-- milliseconds, is an argument; so is `late`, how many milliseconds after the timeout its callback
-- runs.
pub mod Checks
mod Tests
use core_dashboard.Prelude.{
  ℕ, ◌+◌, ◌-◌, String, Bool, true, false, Option, none, some, List, [], ◌∷◌, if◌then◌else◌, ltb,
  max,
}
use core_dashboard.Shared.Fetch.{is_set, is_ok}

abbrev pub check_timeout_ms : ℕ
check_timeout_ms = 3000

pub record HealthStatus : Type 0 where
  pub status : String
  pub service : String
  pub uptime : ℕ

abbrev pub get_health : ℕ → HealthStatus
get_health uptime = record { status = "ok"; service = "core-dashboard-api"; uptime = uptime }

pub data DependencyStatus : Type 0 where
  ok down : DependencyStatus

pub data DependencyName : Type 0 where
  cci_auth_service taskforge ops_notify_bot : DependencyName

pub record DependencyCheck : Type 0 where
  pub name : DependencyName
  pub status : DependencyStatus
  pub latency_ms : ℕ

-- A request: a status after some time, a failure after some time, or no answer.
pub data Fetching : Type 0 where
  answered : ℕ → ℕ → Fetching
  failed : ℕ → Fetching
  silent : Fetching

abbrev pub status_of : ℕ → DependencyStatus
status_of status = if is_ok status then ok else down

abbrev pub result : DependencyName → DependencyStatus → ℕ → DependencyCheck
result name status latency_ms = record { name = name; status = status; latency_ms = latency_ms }

-- A request that has not ended when the timeout's callback runs is aborted, and then rejects.
abbrev pub await_fetch : DependencyName → ℕ → Fetching → DependencyCheck
await_fetch name fired (answered status after) =
    if ltb after fired then result name (status_of status) after else result name down fired
await_fetch name fired (failed after) =
    if ltb after fired then result name down after else result name down fired
await_fetch name fired silent = result name down fired

unfoldable pub check_http_health : DependencyName → Option String → ℕ → Fetching → DependencyCheck
check_http_health name base_url late fetching =
    if is_set base_url
    then await_fetch name (check_timeout_ms + late) fetching
    else result name down 0

-- `listJobs`: whether it returns or throws, and after how long; nothing limits it here.
pub data Listing : Type 0 where
  listed : Bool → ℕ → Listing
  never : Listing

abbrev pub check_taskforge : Listing → Option DependencyCheck
check_taskforge (listed true after) = some (result taskforge ok after)
check_taskforge (listed false after) = some (result taskforge down after)
check_taskforge never = none

abbrev pub with_taskforge :
    DependencyCheck → Option DependencyCheck → DependencyCheck → Option (List DependencyCheck)
with_taskforge auth_service none notify_bot = none
with_taskforge auth_service (some jobs) notify_bot = some (auth_service ∷ jobs ∷ notify_bot ∷ [])

-- `Promise.all`: none as long as one is awaited.
unfoldable pub check :
    Option String
    → Option String
    → ℕ
    → Fetching
    → Listing
    → Fetching
    → Option (List DependencyCheck)
check auth_url bot_url late auth jobs bot =
    with_taskforge (check_http_health cci_auth_service auth_url late auth) (check_taskforge jobs)
      (check_http_health ops_notify_bot bot_url late bot)
