-- ===== src/Actions/Endpoint/Tests.antt =====
-- A request for a restart, at a concrete library.
use core_dashboard.Prelude.{
  String, ◌≤◌, ◌≡◌, refl, ◌++◌, ◌==◌, ◌&&◌, string_equality, text_equality, if◌then◌else◌, Option,
  none, some, [], ◌∷◌, Text, codes, split, trim,
}
use core_dashboard.Shared.Auth.{AuthUser, operator, rank, has_role, role_from_claims}
use core_dashboard.Shared.Events.{ServiceState, running, healthy}
use core_dashboard.Auth.{
  JwtLibrary, Environment, JwtPayload, string, array, other, payload, Decoded, bearer, can_activate,
  authenticate, verify, after,
}
use core_dashboard.Auth.Guards.{IsVerified}
use core_dashboard.Actions.{
  init, Attempt, restart, attempt, attempt_limited, is_protected, check_rate_limit, record_restart,
  prune, get, set,
}
use core_dashboard.Shared.Values.{is_name}
use core_dashboard.Actions.Guards.{IsAllowed}
use core_dashboard.Actions.Endpoint.{restarting, restart_request}
use core_dashboard.Actions.Endpoint.Access.{restart_request-restarting}

abbrev claims : JwtPayload
claims = record { sub = string "u1"; email = other; roles = array (some "OPERATOR" ∷ []) }

abbrev signs : String → Text → Option Decoded
signs secret token = if secret == "k" && token == codes "t" then some (payload claims) else none

abbrev library : JwtLibrary
library = record {
  Key = Unit;
  verify_hs256 = signs;
  decode_header = λ token. none;
  get_public_key = λ kid. none;
  verify_rs256 = λ key name token. none;
}

abbrev env : Environment
env = record { auth_jwt_secret = some "k"; auth_issuer = none }

abbrev managed : Option ServiceState
managed = some (record {
  id = "1";
  name = "web";
  service = "web";
  project = "shop";
  image = "img";
  status = running;
  health = healthy;
  started_at = none;
  uptime_sec = none;
})

abbrev now : Attempt
now = record { container = "web"; checked_at = 5; recorded_at = 6 }

abbrev header : Option Text
header = some (codes "Bearer t")

abbrev user : AuthUser
user = record { sub = some "u1"; email = none; role = operator }

restarts :
    (restart_request none (codes "web") managed now init library env header).0 ≡ restarting user
unfolding restart_request can_activate authenticate verify after has_role role_from_claims restart
    attempt attempt_limited is_protected check_rate_limit record_restart prune get set split trim
    is_name
restarts = refl

restart_request-restarting_example :
    ((token : Text) × (header ≡ some (bearer ++ token))
      × IsVerified library env token user
      × (rank operator ≤ rank user.role))
    × IsAllowed none (codes "web") managed now init
restart_request-restarting_example =
    restart_request-restarting none (codes "web") managed now init library env header user restarts
