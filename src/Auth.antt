-- ===== src/Auth.antt =====
-- apps/api/src/auth: from a request's token to its user and to the guard's decision. The JWT
-- library, the provider of public keys and the environment are parameters.
pub mod Guards
mod Tests
use core_dashboard.Prelude.{
  ℕ, String, Bool, true, false, not, ◌&&◌, Option, none, some, List, [], ◌∷◌, ◌++◌, ◌==◌,
  number_equality, string_equality, if◌then◌else◌, Text, codes, filter,
}
use core_dashboard.Shared.Auth.{AuthUser, Role, anonymous, role_from_claims, has_role}
use core_dashboard.Shared.Fetch.{Answer, Outcome, not_configured, exchange, is_set}

-- A claim of a payload: a string, an array, or anything else, an absent claim among them.
pub data Claim : Type 0 where
  string : String → Claim
  array : List (Option String) → Claim
  other : Claim

pub record JwtPayload : Type 0 where
  pub sub : Claim
  pub email : Claim
  pub roles : Claim

-- `string | jwt.JwtPayload`.
pub data Decoded : Type 0 where
  plain : Decoded
  payload : JwtPayload → Decoded

-- The libraries: `none` where they throw. `decode_header` gives the header's `kid`.
pub record JwtLibrary : Type 1 where
  pub Key : Type 0
  pub verify_hs256 : String → Text → Option Decoded
  pub decode_header : Text → Option (Option String)
  pub get_public_key : Option String → Option Key
  pub verify_rs256 : Key → String → Text → Option Decoded

-- `AUTH_JWT_SECRET` and `AUTH_ISSUER`.
pub record Environment : Type 0 where
  pub auth_jwt_secret : Option String
  pub auth_issuer : Option String

abbrev pub issuer : Option String → String
issuer none = "https://auth.corecodeinnovation.com"
issuer (some name) = name

abbrev pub assert_payload : Option Decoded → Option JwtPayload
assert_payload (some (payload p)) = some p
assert_payload _ = none

-- The strings of `payload.roles`.
abbrev pub strings : List (Option String) → List String
strings [] = []
strings (none ∷ claims) = strings claims
strings (some claim ∷ claims) = claim ∷ strings claims

abbrev pub claims_of : Claim → List String
claims_of (array claims) = strings claims
claims_of _ = []

abbrev pub email_of : Claim → Option String
email_of (string email) = some email
email_of _ = none

abbrev pub user_of : JwtPayload → Claim → AuthUser
user_of p (string sub) = if sub == "" then anonymous else record {
  sub = some sub;
  email = email_of p.email;
  role = role_from_claims (claims_of p.roles);
}
user_of p _ = anonymous

abbrev pub user_of_verified : Option JwtPayload → AuthUser
user_of_verified none = anonymous
user_of_verified (some p) = user_of p p.sub

-- The rest of a text after a prefix.
unfoldable pub after : Text → Text → Option Text
after [] s = some s
after (c ∷ p) [] = none
after (c ∷ p) (d ∷ s) = elim (c == d) [ true ↦ after p s | false ↦ none ]

abbrev pub bearer : Text
bearer = codes "Bearer "

-- `AuthGuard.extractToken`, on the header.
abbrev pub extract_token : Option Text → Option Text
extract_token none = none
extract_token (some raw) = after bearer raw

-- `extractToken` of the socket: `auth.token`, if it is a string that is not empty, and the header
-- else.
abbrev pub extract_socket_token : Option Text → Option Text → Option Text
extract_socket_token none header = extract_token header
extract_socket_token (some []) header = extract_token header
extract_socket_token (some (c ∷ s)) header = some (c ∷ s)

pub data Decision : Type 0 where
  allowed : AuthUser → Decision
  unauthorized forbidden : Decision

abbrev pub refuse : Option String → Decision
refuse none = unauthorized
refuse (some sub) = forbidden

-- `minRole` is what the handler's or the class's decorator says.
abbrev pub decide : Option Role → AuthUser → Decision
decide none user = allowed user
decide (some least) user = if has_role user least then allowed user else refuse user.sub

module _ (jwt : JwtLibrary) (env : Environment) where
  abbrev pub verify_key : Option jwt.Key → Text → Option JwtPayload
  verify_key none token = none
  verify_key (some key) token = assert_payload (jwt.verify_rs256 key (issuer env.auth_issuer) token)

  abbrev pub verify_header : Option (Option String) → Text → Option JwtPayload
  verify_header none token = none
  verify_header (some kid) token = verify_key (jwt.get_public_key kid) token

  abbrev pub verify_secret : Option String → Text → Option JwtPayload
  verify_secret none token = verify_header (jwt.decode_header token) token
  verify_secret (some secret) token =
      if is_set (some secret)
      then assert_payload (jwt.verify_hs256 secret token)
      else verify_header (jwt.decode_header token) token

  unfoldable pub verify : Text → Option JwtPayload
  verify token = verify_secret env.auth_jwt_secret token

  unfoldable pub authenticate : Option Text → AuthUser
  authenticate none = anonymous
  authenticate (some []) = anonymous
  authenticate (some (c ∷ s)) = user_of_verified (verify (c ∷ s))

  unfoldable pub can_activate : Option Text → Option Role → Decision
  can_activate header least = decide least (authenticate (extract_token header))

  -- The middleware of the handshake: `socket.data.user`.
  unfoldable pub handshake : Option Text → Option Text → AuthUser
  handshake token header = authenticate (extract_socket_token token header)

-- `requireFields`: the names of the fields that are absent or empty.
abbrev pub is_missing : String × Option String → Bool
is_missing (field, value) = not (is_set value)

unfoldable pub require_fields : List (String × Option String) → List (String × Option String)
require_fields fields = filter is_missing fields

-- `AuthProxyService.forward`.
unfoldable pub forward {ℓ} : {B : Type ℓ} → B → Option String → Answer B → Outcome B
forward empty base_url answer = if is_set base_url then exchange empty answer else not_configured

-- A handler of `AuthController`: the fields are tested before anything is forwarded.
pub data Reply {ℓ} (B : Type ℓ) : Type ℓ where
  missing_fields : List (String × Option String) → Reply B
  forwarded : Outcome B → Reply B

abbrev pub reply_to {ℓ} : {B : Type ℓ} → List (String × Option String) → Outcome B → Reply B
reply_to [] outcome = forwarded outcome
reply_to missing outcome = missing_fields missing

unfoldable pub handle {ℓ} :
    {B : Type ℓ} → List (String × Option String) → B → Option String → Answer B → Reply B
handle fields empty base_url answer =
    reply_to (require_fields fields) (forward empty base_url answer)

-- `logout`: the refresh token that is forwarded, if any; the answer is the same in every case.
unfoldable pub logout : Option String → Option String
logout refresh_token = if is_set refresh_token then refresh_token else none
