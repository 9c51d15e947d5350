-- ===== src/Gateway.antt =====
-- apps/api/src/gateway/live.gateway.ts: the rooms of the live namespace. The sockets' rooms are
-- socket.io's; a join and a leave are what the gateway asks of it.
pub mod Rooms
mod Tests
use core_dashboard.Prelude.{
  ℕ, Bool, true, false, not, ◌&&◌, List, [], ◌∷◌, ◌++◌, map, filter, take, contains, Text, codes,
  text_equality, if◌then◌else◌, leb, length, any, String, Option, none, some, ◌==◌, string_equality,
  number_equality, trim, split, is_space,
}
use core_dashboard.Shared.Events.{ServiceUpdate, AlertType, LogsAck}
use core_dashboard.Logs.Service.{LogsService, Request, subscribe, unsubscribe, destroy_for_socket}
use core_dashboard.Shared.Values.{Value, text, is_name}

abbrev pub max_rooms_per_request : ℕ
max_rooms_per_request = 50

-- `typeof service === "string" && SERVICE_NAME.test(service)`, on the values of an array.
unfoldable pub valid_services : List Value → List Text
valid_services [] = []
valid_services (text service ∷ input) =
    if is_name 63 service then service ∷ valid_services input else valid_services input
valid_services (other ∷ input) = valid_services input

-- `[...new Set(valid)]`: the first of each, in order.
unfoldable pub distinct_after : List Text → List Text → List Text
distinct_after seen [] = []
distinct_after seen (service ∷ services) =
    if contains service seen
    then distinct_after seen services
    else service ∷ distinct_after (service ∷ seen) services

-- What a client may send: an array, or anything else.
pub data Input : Type 0 where
  array : List Value → Input
  no_array : Input

unfoldable pub sanitize_services : Input → List Text
sanitize_services no_array = []
sanitize_services (array input) =
    take max_rooms_per_request (distinct_after [] (valid_services input))

-- `serviceRoom`, on the code units.
abbrev pub room_of : Text → Text
room_of service = codes "service:" ++ service

abbrev pub join : Text → List Text → List Text
join room rooms = if contains room rooms then rooms else rooms ++ room ∷ []

abbrev pub leave : Text → List Text → List Text
leave room rooms = filter (λ r. not (contains r (room ∷ []))) rooms

unfoldable pub join_all : List Text → List Text → List Text
join_all [] rooms = rooms
join_all (service ∷ services) rooms = join_all services (join (room_of service) rooms)

unfoldable pub leave_all : List Text → List Text → List Text
leave_all [] rooms = rooms
leave_all (service ∷ services) rooms = leave_all services (leave (room_of service) rooms)

-- The socket's rooms after the request, and the acknowledgement.
unfoldable pub on_subscribe : Input → List Text → List Text × List Text
on_subscribe input rooms = let valid = sanitize_services input in (join_all valid rooms, valid)

unfoldable pub on_unsubscribe : Input → List Text → List Text × List Text
on_unsubscribe input rooms = let valid = sanitize_services input in (leave_all valid rooms, valid)

-- `publishUpdate`: whether a socket in these rooms receives an update of a service.
abbrev pub receives : Text → List Text → Bool
receives service rooms = contains (room_of service) rooms

-- The sockets of the namespace with their rooms, by their ids.
abbrev pub Sockets : Type 0
Sockets = List (Text × List Text)

-- The ids of the sockets that an update is sent to, and that an alert is sent to; nothing is sent
-- before the server is there.
unfoldable pub publish_update : Option Sockets → ServiceUpdate → List Text
publish_update none update = []
publish_update (some sockets) update =
    map (λ socket. socket.0) (filter (λ socket. receives (codes update.service) socket.1) sockets)

unfoldable pub publish_alert : Option Sockets → AlertType → List Text
publish_alert none type = []
publish_alert (some sockets) type = map (λ socket. socket.0) sockets

-- `CORS_ORIGIN`: every origin, or those of the list.
abbrev pub cors_origins : Option String → Option (List Text)
cors_origins none = none
cors_origins (some raw) = if raw == "" then none else some (map trim (split b',' (codes raw)))

-- The calls that the gateway only passes on: `managed` and `opened` are what the inventory and
-- Docker answer.
abbrev pub handle_disconnect : Text → LogsService → LogsService
handle_disconnect socket_id logs = destroy_for_socket socket_id logs

abbrev pub on_logs_subscribe : Text → Request → Bool → Bool → LogsService → LogsAck × LogsService
on_logs_subscribe socket_id request managed opened logs =
    subscribe socket_id request managed opened logs

abbrev pub on_logs_unsubscribe : Text → Request → LogsService → LogsAck × LogsService
on_logs_unsubscribe socket_id request logs = unsubscribe socket_id request logs
