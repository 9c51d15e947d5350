-- ===== src/Auth/Tests.antt =====
-- The theorems on authentication, at a concrete library.
use core_dashboard.Prelude.{
  ◌≤◌, ◌++◌, String, ◌≡◌, refl, ◌==◌, ◌&&◌, string_equality, text_equality, if◌then◌else◌, none,
  some, Option, [], ◌∷◌, Text, codes, arith,
}
use core_dashboard.Shared.Auth.{AuthUser, has_role, operator, admin, rank, role_from_claims}
use core_dashboard.Auth.{
  JwtLibrary, Environment, JwtPayload, string, array, other, payload, Decoded, can_activate,
  allowed, unauthorized, forbidden, authenticate, verify, after, bearer,
}
use core_dashboard.Auth.Guards.{IsVerified, can_activate-allowed}

abbrev claims : JwtPayload
claims = record { sub = string "u1"; email = other; roles = array (some "OPERATOR" ∷ none ∷ []) }

-- It accepts the token `t` under the secret `k`, and no public key.
abbrev signs : String → Text → Option Decoded
signs secret token = if secret == "k" && token == codes "t" then some (payload claims) else none

abbrev library : JwtLibrary
library = record {
  Key = Unit;
  verify_hs256 = signs;
  decode_header = λ token. none;
  get_public_key = λ kid. none;
  verify_rs256 = λ key name token. none;
}

abbrev env : Environment
env = record { auth_jwt_secret = some "k"; auth_issuer = none }

abbrev user : AuthUser
user = record { sub = some "u1"; email = none; role = operator }

decisions :
    (can_activate library env (some (codes "Bearer t")) (some operator) ≡ allowed user)
    × (can_activate library env (some (codes "Bearer t")) (some admin) ≡ forbidden)
    × (can_activate library env (some (codes "Basic t")) (some operator) ≡ unauthorized)
    × (can_activate library env none (some admin) ≡ unauthorized)
unfolding can_activate authenticate verify after has_role role_from_claims
decisions = (refl, refl, refl, refl)

can_activate-allowed_example :
    (token : Text) × (some (codes "Bearer t") ≡ some (bearer ++ token))
    × IsVerified library env token user
    × (rank operator ≤ rank user.role)
can_activate-allowed_example =
    can_activate-allowed library env (some (codes "Bearer t")) operator user (λ e. ground arith)
      decisions.0
