-- ===== src/Web/Sync/Socket.antt =====
-- apps/web/src/lib/live/live-provider.tsx: the sockets that the provider opens, one for each token of
-- the session, and who the gateway takes them for.
mod Tests
use core_dashboard.Prelude.{
  ◌≡◌, refl, ◌++◌, String, Bool, true, false, Option, none, some, List, [], ◌∷◌, Text, codes,
  if◌then◌else◌, Bool-cases, inl, inr, eq_iff, ◌==◌, string_equality,
}
use core_dashboard.Shared.Auth.{AuthUser}
use core_dashboard.Shared.Fetch.{is_set}
use core_dashboard.Auth.{
  JwtLibrary, Environment, authenticate, extract_token, handshake, after, bearer,
}
use core_dashboard.Web.Pager.Access.{header_of}
use core_dashboard.Web.Sync.{LiveProvider, lose}
use Prim.Native.String
use Prim.Native.Char.{Char}

abbrev pub live_namespace : String
live_namespace = "/live"

abbrev default_url : Bool → String
default_url development = if development then "http://localhost:3004" else ""

-- `NEXT_PUBLIC_API_WS_URL`, and whether `NODE_ENV` is `development`.
unfoldable pub ws_base_url : Option String → Bool → String
ws_base_url none development = default_url development
ws_base_url (some url) development = if is_set (some url) then url else default_url development

-- What `io` is called with: the URL, and the token of `auth`.
pub record Connection : Type 0 where
  pub url : String
  pub token : Option String

-- `accessToken ? { token: accessToken } : {}`.
abbrev pub auth_of : Option String → Option String
auth_of access_token = if is_set access_token then access_token else none

unfoldable pub connection_of : Option String → Bool → Option String → Connection
connection_of url development access_token = record {
  url = String.◌++◌ (ws_base_url url development) live_namespace;
  token = auth_of access_token;
}

-- The effect runs again for another token: the old socket disconnects, and a new one is opened. The
-- list stays until the snapshot comes.
unfoldable pub change_token :
    Option String → Bool → Option String → LiveProvider → LiveProvider × Connection
change_token url development access_token s = (lose s, connection_of url development access_token)

-- What the handshake carries.
abbrev pub sent_token : Connection → Option Text
sent_token c = elim c.token [ none ↦ none | some token ↦ some (codes token) ]

abbrev sent_header : Option String → Option Text
sent_header none = none
sent_header (some token) = header_of token

-- The header of the requests of the same session, if it has a token.
abbrev pub request_header : Option String → Option Text
request_header token = if is_set token then sent_header token else none

is_set-cons : (c : Char) (s : String) → is_set (some (String.◌∷◌ c s)) ≡ true
is_set-cons c s = elim (Bool-cases (String.◌∷◌ c s == "")) [
  | inl e ↦ let empty : String.◌∷◌ c s ≡ "" = (eq_iff (String.◌∷◌ c s) "").0 e in cc
  | inr e ↦ rw e
]

-- The gateway takes the socket that is opened for a token for the same user as the api takes the
-- requests with that token, and for the anonymous user where there is none.
pub handshake-connection_of :
    (jwt : JwtLibrary) (env : Environment) (url : Option String) (development : Bool)
    (access_token : Option String)
    → handshake jwt env (sent_token (connection_of url development access_token)) none
      ≡ authenticate jwt env (extract_token (request_header access_token))
unfolding connection_of handshake after
handshake-connection_of jwt env url development none = refl
handshake-connection_of jwt env url development (some String.[]) = refl
handshake-connection_of jwt env url development (some (String.◌∷◌ c s)) = rw (is_set-cons c s) refl
