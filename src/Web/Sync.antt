-- ===== src/Web/Sync.antt =====
-- apps/web/src/lib/live/live-provider.tsx with the gateway at the other end of its socket: a
-- connection, the snapshot, the rooms, and the updates that are published meanwhile.
pub mod Follow
pub mod Shown
pub mod Socket
mod Tests
use core_dashboard.Prelude.{
  String, Bool, true, false, List, [], ◌∷◌, map, Text, codes, if◌then◌else◌,
}
use core_dashboard.Shared.Events.{ServiceState, StateSnapshot, ServiceUpdate, service_key}
use core_dashboard.Shared.Values.{Value, text}
use core_dashboard.Gateway.{Input, array, on_subscribe, receives}
use core_dashboard.Web.Live.{Comparison, sort_services, apply_update}

pub data ConnectionStatus : Type 0 where
  connecting live reconnecting : ConnectionStatus

-- The state of the provider, the keys that it has asked for and the gateway has not handled, and
-- the rooms of its socket at the gateway.
pub record LiveProvider : Type 0 where
  pub services : List ServiceState
  pub status : ConnectionStatus
  pub asked : List Text
  pub rooms : List Text

abbrev pub new : LiveProvider
new = record { services = []; status = connecting; asked = []; rooms = [] }

abbrev pub keys_of : StateSnapshot → List Text
keys_of snapshot = map (λ s. codes (service_key s.project s.service)) snapshot.services

abbrev pub request_of : List Text → Input
request_of keys = array (map text keys)

pub data Event : Type 0 where
  connected disconnected reconnect_attempt : Event
  snapshot_answered : StateSnapshot → Event
  rooms_handled : Event
  published : ServiceUpdate → Event

-- A new connection has no rooms.
abbrev pub connect : LiveProvider → LiveProvider
connect s = record s { status = live; asked = []; rooms = [] }

abbrev pub lose : LiveProvider → LiveProvider
lose s = record s { status = reconnecting; asked = []; rooms = [] }

-- The gateway joins the rooms of a request that was sent: none is sent for no keys.
abbrev pub join_asked : List Text → LiveProvider → LiveProvider
join_asked [] s = s
join_asked (key ∷ keys) s = record s {
  rooms = (on_subscribe (request_of (key ∷ keys)) s.rooms).0;
  asked = [];
}

module _ (compare : String → String → Comparison) where
  unfoldable pub resync : StateSnapshot → LiveProvider → LiveProvider
  resync snapshot s = record s {
    services = sort_services compare snapshot.services;
    asked = keys_of snapshot;
  }

  -- What the gateway publishes to the room of its service, and the provider then does.
  unfoldable pub deliver : ServiceUpdate → LiveProvider → LiveProvider
  deliver update s =
      if receives (codes update.service) s.rooms
      then record s { services = apply_update compare s.services update }
      else s

  unfoldable pub step : Event → LiveProvider → LiveProvider
  step connected s = connect s
  step disconnected s = lose s
  step reconnect_attempt s = record s { status = reconnecting }
  step (snapshot_answered snapshot) s = resync snapshot s
  step rooms_handled s = join_asked s.asked s
  step (published update) s = deliver update s

  unfoldable pub run : List Event → LiveProvider → LiveProvider
  run [] s = s
  run (e ∷ events) s = run events (step e s)
