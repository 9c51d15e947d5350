-- ===== src/Logs/Service.antt =====
-- apps/api/src/logs/logs.service.ts: which sessions are open, for which clients. `subscribe` waits
-- for the inventory and then for Docker, so it is cut there, and other calls may run in between.
-- A session is a number here (its content is the part Session); `live` holds the sessions that are
-- not closed, each with the key that its `onClose` deletes.
pub mod Keys
pub mod Limit
pub mod Races
mod Tests
use core_dashboard.Prelude.{
  ℕ, suc, ◌+◌, String, Bool, true, false, Option, none, some, List, [], ◌∷◌, ◌++◌, if◌then◌else◌,
  leb, min, any, filter, length, not, ◌==◌, number_equality, text_equality, Text,
}
use core_dashboard.Shared.Events.{LogsAck}
use core_dashboard.Shared.Values.{Number, natural, Value, text, number, is_name}

abbrev pub max_sessions_per_socket : ℕ
max_sessions_per_socket = 3

abbrev pub default_tail : ℕ
default_tail = 100

abbrev pub max_tail : ℕ
max_tail = 1000

-- `unknown`: an object with its two fields, or anything else.
pub data Request : Type 0 where
  not_object : Request
  fields : Value → Value → Request

pub record Parsed : Type 0 where
  pub container : Text
  pub tail : ℕ

abbrev pub parse_tail : Value → ℕ
parse_tail (number (natural n)) = min n max_tail
parse_tail _ = default_tail

abbrev pub parse_fields : Value → Value → Option Parsed
parse_fields (text container) tail =
    if is_name 127 container
    then some (record { container = container; tail = parse_tail tail })
    else none
parse_fields _ tail = none

unfoldable pub parse_request : Request → Option Parsed
parse_request not_object = none
parse_request (fields container tail) = parse_fields container tail

pub record LogsService : Type 0 where
  pub sessions : List (Text × ℕ)
  pub live : List (ℕ × Text)
  pub next : ℕ

abbrev pub init : LogsService
init = record { sessions = []; live = []; next = 0 }

abbrev pub key : Text → Text → Text
key socket container = socket ++ b'|' ∷ container

unfoldable pub starts_with : Text → Text → Bool
starts_with s [] = true
starts_with [] (d ∷ p) = false
starts_with (c ∷ s) (d ∷ p) = if c == d then starts_with s p else false

-- `key.startsWith(`${socketId}|`)`.
abbrev pub owned_by : Text → Text × ℕ → Bool
owned_by socket (k, id) = starts_with k (socket ++ b'|' ∷ [])

-- `sessions.has`, `get`, `set` and `delete` of a `Map`, in the order of insertion.
unfoldable pub get : Text → List (Text × ℕ) → Option ℕ
get k [] = none
get k ((j, id) ∷ m) = if j == k then some id else get k m

unfoldable pub set : Text → ℕ → List (Text × ℕ) → List (Text × ℕ)
set k id [] = (k, id) ∷ []
set k id ((j, old) ∷ m) = if j == k then (k, id) ∷ m else (j, old) ∷ set k id m

unfoldable pub delete : Text → List (Text × ℕ) → List (Text × ℕ)
delete k [] = []
delete k ((j, id) ∷ m) = if j == k then m else (j, id) ∷ delete k m

unfoldable pub session_count_for : Text → LogsService → ℕ
session_count_for socket s = length (filter (owned_by socket) s.sessions)

-- The key of a session that is not closed yet.
unfoldable pub key_of : ℕ → List (ℕ × Text) → Option Text
key_of id [] = none
key_of id ((other, k) ∷ l) = if other == id then some k else key_of id l

-- `session.close()`: the first time, `onClose` deletes the key.
unfoldable pub close_session : ℕ → LogsService → LogsService
close_session id s = elim (key_of id s.live) [
  | none ↦ s
  | some k ↦ record s {
    sessions = delete k s.sessions;
    live = filter (λ entry. not (entry.0 == id)) s.live;
  }
]

abbrev pub ok_ack : LogsAck
ok_ack = record { ok = true; error = none }

abbrev pub error_ack : String → LogsAck
error_ack message = record { ok = false; error = some message }

pub data Begun : Type 0 where
  answered : LogsAck → Begun
  searching : Parsed → Begun

-- Up to `await findManagedByName`.
unfoldable pub subscribe_begin : Text → Request → LogsService → Begun
subscribe_begin socket request s = elim (parse_request request) [
  | none ↦ answered (error_ack "pedido inválido")
  | some parsed ↦ elim (get (key socket parsed.container) s.sessions) [
    | some id ↦ answered ok_ack
    | none ↦
        if leb max_sessions_per_socket (session_count_for socket s)
        then answered (error_ack "máximo 3 streams por cliente")
        else searching parsed
  ]
]

-- From the inventory's answer up to `await openDockerStream`: the new session is in the map.
unfoldable pub subscribe_found : Text → Text → Bool → LogsService → Option ℕ × LogsService
subscribe_found socket container managed s =
    if managed
    then (
      some s.next,
      record {
        sessions = set (key socket container) s.next s.sessions;
        live = (s.next, key socket container) ∷ s.live;
        next = suc s.next;
      },
    )
    else (none, s)

-- Docker has opened the stream, or has failed to.
unfoldable pub subscribe_opened : ℕ → Bool → LogsService → LogsAck × LogsService
subscribe_opened id opened s =
    if opened
    then (ok_ack, s)
    else (error_ack "no se pudo abrir el stream de logs", close_session id s)

abbrev pub subscribe_session : Bool → Option ℕ × LogsService → LogsAck × LogsService
subscribe_session opened (none, s) = (error_ack "contenedor desconocido", s)
subscribe_session opened (some id, s) = subscribe_opened id opened s

abbrev pub subscribe_rest : Text → Bool → Bool → Begun → LogsService → LogsAck × LogsService
subscribe_rest socket managed opened (answered ack) s = (ack, s)
subscribe_rest socket managed opened (searching parsed) s =
    subscribe_session opened (subscribe_found socket parsed.container managed s)

-- The three parts with nothing in between.
unfoldable pub subscribe : Text → Request → Bool → Bool → LogsService → LogsAck × LogsService
subscribe socket request managed opened s =
    subscribe_rest socket managed opened (subscribe_begin socket request s) s

abbrev pub close_found : Option ℕ → LogsService → LogsService
close_found none s = s
close_found (some id) s = close_session id s

abbrev pub unsubscribe_field : Text → Value → LogsService → LogsAck × LogsService
unsubscribe_field socket (text container) s =
    (ok_ack, close_found (get (key socket container) s.sessions) s)
unsubscribe_field socket _ s = (error_ack "pedido inválido", s)

unfoldable pub unsubscribe : Text → Request → LogsService → LogsAck × LogsService
unsubscribe socket not_object s = (error_ack "pedido inválido", s)
unsubscribe socket (fields container tail) s = unsubscribe_field socket container s

-- The loop of `destroyForSocket` over the entries of the map.
unfoldable pub close_all : List (Text × ℕ) → LogsService → LogsService
close_all [] s = s
close_all ((k, id) ∷ entries) s = close_all entries (close_session id s)

unfoldable pub destroy_for_socket : Text → LogsService → LogsService
destroy_for_socket socket s = close_all (filter (owned_by socket) s.sessions) s

unfoldable pub on_module_destroy : LogsService → LogsService
on_module_destroy s = close_all s.sessions s
