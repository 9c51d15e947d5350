-- ===== src/Web/Sync/Tests.antt =====
-- The connection, on a concrete snapshot.
use core_dashboard.Prelude.{
  String, ◌≡◌, refl, none, some, [], ◌∷◌, ◌++◌, map, filter, contains, codes, text_equality, arith,
  split, trim,
}
use core_dashboard.Shared.Values.{is_name}
use core_dashboard.Shared.Maps.{lookup}
use core_dashboard.Shared.Events.{
  ServiceState, StateSnapshot, ServiceUpdate, ContainerStatus, running, exited, healthy, no_health,
  die, service_key,
}
use core_dashboard.Containers.{
  DockerEvent, Labels, compose_service, compose_project, handle_event, publish_from_event,
  is_managed, action_of, find_action, read_digits, inspect_state, prefix,
}
use core_dashboard.Web.Live.{Comparison, same, sort_services}
use core_dashboard.Web.Sync.{
  new, keys_of, connected, snapshot_answered, rooms_handled, published, run,
}
use core_dashboard.Web.Sync.Follow.{apply_all, run-follows}
use core_dashboard.Web.Sync.Shown.{connection, IsUpdated, connection-handle_event}

abbrev state : ContainerStatus → ServiceState
state status = record {
  id = "1";
  name = "web";
  service = "web";
  project = "shop";
  image = "img";
  status = status;
  health = healthy;
  started_at = none;
  uptime_sec = none;
}

abbrev update : ContainerStatus → ServiceUpdate
update status = record {
  service = "shop.web";
  state = state status;
  occurred_at = 0;
  action = die;
  exit_code = none;
}

abbrev snapshot : StateSnapshot
snapshot = record { services = state running ∷ []; generated_at = 0 }

abbrev compare : String → String → Comparison
compare a b = same

-- The container dies while the request for its room is on the way.
run-follows_example :
    (run compare
      (connected ∷ snapshot_answered snapshot ∷ map published (update exited ∷ [])
        ++ rooms_handled ∷ map published (update running ∷ []))
      new).services
    ≡ apply_all compare
        (filter (λ u. contains (codes u.service) (keys_of snapshot)) (update running ∷ []))
        (sort_services compare snapshot.services)
unfolding is_name service_key
run-follows_example =
    run-follows compare snapshot (update exited ∷ []) (update running ∷ []) new (refl, tt)
      (omega arith)

-- The container dies again; its inspection fails.
abbrev labels : Labels
labels =
    (compose_service, "web") ∷ (compose_project, "shop") ∷ ("name", "web") ∷ ("image", "img") ∷ []

abbrev death : DockerEvent
death = record { action = some (codes "die"); id = some "1"; actor_id = none; attributes = labels }

abbrev gone : ServiceUpdate
gone = record {
  service = "shop.web";
  state = record {
    id = "1";
    name = "web";
    service = "web";
    project = "shop";
    image = "img";
    status = exited;
    health = no_health;
    started_at = none;
    uptime_sec = none;
  };
  occurred_at = 3000;
  action = die;
  exit_code = none;
}

handle_event-gone : handle_event (λ id. none) (λ at. 1000) none 3000 (some death) ≡ some gone
unfolding handle_event publish_from_event is_managed action_of find_action read_digits inspect_state
    prefix lookup split trim service_key
handle_event-gone = refl

connection-handle_event_example :
    IsUpdated gone
      (connection compare snapshot (update exited ∷ []) (update running ∷ []) new)
      (connection compare snapshot (update exited ∷ []) (update running ∷ gone ∷ []) new)
unfolding is_name service_key
connection-handle_event_example =
    connection-handle_event compare (λ id. none) (λ at. 1000) none 3000 death gone snapshot
      (update exited ∷ []) (update running ∷ []) new (refl, tt) (omega arith) handle_event-gone refl
