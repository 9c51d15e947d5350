-- ===== src/Routes/Tests.antt =====
-- The gates at a concrete library, for an operator.
use core_dashboard.Prelude.{
  String, ◌≡◌, ◌≢◌, ◌↔◌, refl, true, ◌==◌, ◌&&◌, string_equality, text_equality, if◌then◌else◌,
  Option, none, some, [], ◌∷◌, Text, codes,
}
use core_dashboard.Shared.Auth.{AuthUser, operator, role_from_claims}
use core_dashboard.Auth.{
  JwtLibrary, Environment, JwtPayload, string, array, other, payload, Decoded, allowed,
  authenticate, verify,
}
use core_dashboard.Web.Pager.{SecurityAuditPanel, query}
use core_dashboard.Web.Pager.Access.{header_of}
use core_dashboard.Web.QueueStatus.{enabled}
use core_dashboard.Web.RestartButton as Button
use core_dashboard.Web.View.Offers.{Offers}
use core_dashboard.Web.ContainerPanel as Panel
use core_dashboard.Routes.{taskforge_status, security_audit, actions_containers, guarded}
use core_dashboard.Routes.Gates.{gates-agree}

abbrev claims : JwtPayload
claims = record { sub = string "u1"; email = other; roles = array (some "OPERATOR" ∷ []) }

abbrev signs : String → Text → Option Decoded
signs secret token = if secret == "k" && token == codes "t" then some (payload claims) else none

abbrev library : JwtLibrary
library = record {
  Key = Unit;
  verify_hs256 = signs;
  decode_header = λ token. none;
  get_public_key = λ kid. none;
  verify_rs256 = λ key name token. none;
}

abbrev env : Environment
env = record { auth_jwt_secret = some "k"; auth_issuer = none }

abbrev user : AuthUser
user = record { sub = some "u1"; email = none; role = operator }

abbrev panel : SecurityAuditPanel
panel = record { action = none; user_id = []; skip = 0 }

gates-agree_example :
    ((enabled user (some "t") ≡ true)
      ↔ (guarded library env (header_of "t") taskforge_status ≡ allowed user))
    × ((query user (some "t") panel ≢ none)
        ↔ (guarded library env (header_of "t") security_audit ≡ allowed user))
    × (Offers Panel.click_restart (Panel.restart_view user Button.new)
        ↔ (guarded library env (header_of "t") actions_containers ≡ allowed user))
gates-agree_example =
    unfold authenticate verify role_from_claims in
    gates-agree library env "t" user refl panel Button.new refl
