-- ===== src/Actions.antt =====
-- apps/api/src/actions: restarting a container, with its protections and rate limits. What the
-- inventory answers, whether Docker's restart succeeds, the environment and the clock are
-- arguments. `restartContainer` waits for the inventory, then tests and records in one go, and
-- then waits for Docker: `attempt` is the part in the middle.
pub mod Window
pub mod Pruning
pub mod Spacing
pub mod Guards
pub mod Endpoint
mod Tests
use core_dashboard.Prelude.{
  ℕ, ◌+◌, ◌-◌, ◌*◌, ◌/◌, String, Bool, true, false, Option, none, some, List, [], ◌∷◌, ◌++◌, ltb,
  leb, if◌then◌else◌, filter, length, contains, map, ◌==◌, string_equality, text_equality, Text,
  codes, split, trim, not,
}
use core_dashboard.Shared.Auth.{AuthUser, Role, has_role, operator}
use core_dashboard.Shared.Events.{ServiceState}
use core_dashboard.Shared.Values.{is_name}

abbrev pub default_protected_projects : String
default_protected_projects = "core-dashboard,cci-auth-service"

abbrev pub container_cooldown_ms : ℕ
container_cooldown_ms = 30000

abbrev pub global_limit : ℕ
global_limit = 10

abbrev pub global_window_ms : ℕ
global_window_ms = 5 * 60000

-- `Map<string, number>` in the order of insertion, and `number[]`, the latest at the end.
pub record ActionsService : Type 0 where
  pub last_restart_at : List (String × ℕ)
  pub global_restarts : List ℕ

abbrev pub init : ActionsService
init = record { last_restart_at = []; global_restarts = [] }

unfoldable pub get : String → List (String × ℕ) → Option ℕ
get k [] = none
get k ((j, at) ∷ m) = if j == k then some at else get k m

unfoldable pub set : String → ℕ → List (String × ℕ) → List (String × ℕ)
set k at [] = (k, at) ∷ []
set k at ((j, old) ∷ m) = if j == k then (k, at) ∷ m else (j, old) ∷ set k at m

pub data Refusal : Type 0 where
  invalid_name unknown_container protected_project global_limit_reached : Refusal
  wait_seconds : ℕ → Refusal
  restart_failed : Refusal

abbrev pub drop_empty : List Text → List Text
drop_empty parts = filter (λ part. leb 1 (length part)) parts

-- `list` is `PROTECTED_PROJECTS`, if it is set.
unfoldable pub is_protected : Option String → String → Bool
is_protected none project =
    contains (codes project) (drop_empty (map trim (split b',' (codes default_protected_projects))))
is_protected (some list) project =
    contains (codes project) (drop_empty (map trim (split b',' (codes list))))

-- `now - t < GLOBAL_WINDOW_MS`.
abbrev pub is_recent : ℕ → ℕ → Bool
is_recent now t = ltb (now - t) global_window_ms

abbrev pub check_global : ℕ → ActionsService → Option Refusal
check_global now s =
    if leb global_limit (length (filter (is_recent now) s.global_restarts))
    then some global_limit_reached
    else none

-- `Math.ceil((CONTAINER_COOLDOWN_MS - (now - last)) / 1000)`, reached only if it is positive.
abbrev pub wait_sec : ℕ → ℕ → ℕ
wait_sec now last = (container_cooldown_ms - (now - last) + 999) / 1000

abbrev pub check_last : Option ℕ → ℕ → ActionsService → Option Refusal
check_last none now s = check_global now s
check_last (some last) now s =
    if ltb (now - last) container_cooldown_ms
    then some (wait_seconds (wait_sec now last))
    else check_global now s

unfoldable pub check_rate_limit : String → ℕ → ActionsService → Option Refusal
check_rate_limit container now s = check_last (get container s.last_restart_at) now s

-- The occasional pruning of `recordRestart`.
unfoldable pub prune : ℕ → List ℕ → List ℕ
prune now restarts =
    if ltb (global_limit * 4) (length restarts)
    then filter (λ t. leb (now - global_window_ms) t) restarts
    else restarts

unfoldable pub record_restart : String → ℕ → ActionsService → ActionsService
record_restart container now s = record {
  last_restart_at = set container now s.last_restart_at;
  global_restarts = prune now (s.global_restarts ++ now ∷ []);
}

-- Once the inventory has answered: the tests, and the record of the restart. The clock is read
-- twice, by `checkRateLimit` and by `recordRestart`.
pub record Attempt : Type 0 where
  pub container : String
  pub checked_at : ℕ
  pub recorded_at : ℕ

abbrev pub record_if : Option Refusal → Attempt → ActionsService → Option Refusal × ActionsService
record_if (some refusal) a s = (some refusal, s)
record_if none a s = (none, record_restart a.container a.recorded_at s)

unfoldable pub attempt_limited : Attempt → ActionsService → Option Refusal × ActionsService
attempt_limited a s = record_if (check_rate_limit a.container a.checked_at s) a s

unfoldable pub attempt :
    Option String → Option ServiceState → Attempt → ActionsService → Option Refusal × ActionsService
attempt list none a s = (some unknown_container, s)
attempt list (some managed) a s =
    if is_protected list managed.project then (some protected_project, s) else attempt_limited a s

pub record AuditEntry : Type 0 where
  pub user_sub : String
  pub user_email : String
  pub role : Role
  pub action : String
  pub target : String
  pub result : String

abbrev pub or_unknown : Option String → String
or_unknown none = "unknown"
or_unknown (some s) = s

unfoldable pub audit : AuthUser → String → String → AuditEntry
audit user target result = record {
  user_sub = or_unknown user.sub;
  user_email = or_unknown user.email;
  role = user.role;
  action = "restart";
  target = target;
  result = result;
}

-- After Docker's answer: the row that is written, and the refusal or the success.
unfoldable pub conclude : AuthUser → String → Bool → AuditEntry × Option Refusal
conclude user container true = (audit user container "ok", none)
conclude user container false = (audit user container "error", some restart_failed)

-- `ActionsController.restart`: the test of the name stands before the service.
unfoldable pub restart :
    Option String
    → Text
    → Option ServiceState
    → Attempt
    → ActionsService
    → Option Refusal × ActionsService
restart list name managed a s =
    if is_name 127 name then attempt list managed a s else (some invalid_name, s)
