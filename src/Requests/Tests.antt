-- ===== src/Requests/Tests.antt =====
-- Requests at concrete panels; a number is written by so many strokes.
use core_dashboard.Prelude.{
  ℕ, zero, suc, ◌≡◌, refl, String, true, Option, none, some, [], ◌∷◌, arith, Text, codes, trim,
  length, replicate, ◌==◌, ◌&&◌, string_equality, text_equality, if◌then◌else◌,
}
use core_dashboard.Shared.Auth.{AuthUser, admin, has_role, role_from_claims}
use core_dashboard.Auth.{
  JwtLibrary, Environment, JwtPayload, string, array, other, payload, Decoded, authenticate, verify,
}
use core_dashboard.Shared.Events.{AlertType, job_dlq}
use core_dashboard.Shared.Values.{Number, natural}
use core_dashboard.Web.Pager.{
  AlertsFeedPanel, filters_of, SecurityAuditFilters, SecurityAuditPanel, query,
}
use core_dashboard.Web.Pager.Access.{header_of}
use core_dashboard.Requests.{
  authorized, security_params, on_security_audit, alerts_params, on_alerts_feed, status_requests,
}
use core_dashboard.Requests.Forwarded.{on_security_audit-query, on_alerts_feed-filters_of}

abbrev strokes : ℕ → Text
strokes n = replicate n b'1'

abbrev count : Text → Number
count s = natural (length s)

count-strokes : (n : ℕ) → count (strokes n) ≡ natural n
count-strokes zero = refl
count-strokes (suc n) = ground (arith, count-strokes n)

abbrev administrator : AuthUser
administrator = record { sub = some "u1"; email = none; role = admin }

abbrev claims : JwtPayload
claims = record { sub = string "u1"; email = other; roles = array (some "ADMIN" ∷ []) }

abbrev signs : String → Text → Option Decoded
signs secret t = if secret == "k" && t == codes "t" then some (payload claims) else none

abbrev library : JwtLibrary
library = record {
  Key = Unit;
  verify_hs256 = signs;
  decode_header = λ t. none;
  get_public_key = λ kid. none;
  verify_rs256 = λ key name t. none;
}

abbrev env : Environment
env = record { auth_jwt_secret = some "k"; auth_issuer = none }

abbrev token : Option String
token = some "t"

abbrev panel : SecurityAuditPanel
panel = record { action = some "LOGIN_FAILED"; user_id = []; skip = 20 }

abbrev filters : SecurityAuditFilters
filters = record { action = some "LOGIN_FAILED"; user_id = none; skip = 20; take = 20 }

on_security_audit-query_example :
    (has_role administrator admin ≡ true)
    × (token ≡ some "t")
    × (on_security_audit strokes count library env
          (some "http://auth")
          (security_params strokes filters)
          (header_of "t")
        ≡ some (record {
          path = codes "/audit";
          params = security_params strokes filters;
          headers = authorized (codes "t");
        }))
on_security_audit-query_example =
    unfold query has_role trim authenticate verify role_from_claims in
    on_security_audit-query strokes count count-strokes library env (some "http://auth")
      administrator token panel filters "t" refl refl refl

abbrev type_text : AlertType → Text
type_text type = codes "job_dlq"

abbrev feed : AlertsFeedPanel
feed = record { type = some job_dlq; offset = 40 }

on_alerts_feed-filters_of_example :
    on_alerts_feed strokes count (alerts_params strokes type_text (filters_of feed)) (codes "s")
    ≡ some (record {
      path = codes "/alerts";
      params = alerts_params strokes type_text (filters_of feed);
      headers = ("X-Webhook-Secret", codes "s") ∷ [];
    })
on_alerts_feed-filters_of_example =
    on_alerts_feed-filters_of strokes count count-strokes type_text feed (codes "s")

-- The queue's panel takes eight requests.
status_requests-length : length (status_requests strokes (codes "t")) ≡ 8
unfolding status_requests
status_requests-length = refl
