-- ===== src/Web/Sync/Socket/Tests.antt =====
-- Addresses of the gateway, and the user of a socket.
use core_dashboard.Prelude.{◌≡◌, refl, true, false, Option, none, some, String, Text}
use core_dashboard.Auth.{JwtLibrary, Environment, Decoded, authenticate, extract_token, handshake}
use core_dashboard.Web.Sync.Socket.{
  ws_base_url, connection_of, sent_token, request_header, handshake-connection_of,
}

urls :
    (ws_base_url none true ≡ "http://localhost:3004")
    × (ws_base_url (some "") false ≡ "")
    × (ws_base_url (some "wss://x") true ≡ "wss://x")
unfolding ws_base_url
urls = (refl, refl, refl)

abbrev refuses : String → Text → Option Decoded
refuses secret token = none

abbrev library : JwtLibrary
library = record {
  Key = Unit;
  verify_hs256 = refuses;
  decode_header = λ token. none;
  get_public_key = λ kid. none;
  verify_rs256 = λ key name token. none;
}

abbrev env : Environment
env = record { auth_jwt_secret = some "k"; auth_issuer = none }

handshake-connection_of_example :
    handshake library env (sent_token (connection_of none true (some "t"))) none
    ≡ authenticate library env (extract_token (request_header (some "t")))
handshake-connection_of_example = handshake-connection_of library env none true (some "t")
