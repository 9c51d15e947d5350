-- ===== src/Containers/Tests.antt =====
-- The theorems on containers, at concrete containers and events.
use core_dashboard.Prelude.{
  String, ◌≡◌, refl, true, Bool, none, some, List, [], ◌∷◌, ◌++◌, All, codes, split, trim,
}
use core_dashboard.Shared.Events.{ServiceState, ServiceUpdate, running, healthy, die, service_key}
use core_dashboard.Shared.Maps.{lookup}
use core_dashboard.Shared.Sorting.{count, IsSorted}
use core_dashboard.Logs.Lines.{pop}
use core_dashboard.Containers.{
  ContainerInfo, ListedContainer, DockerEvent, Labels, compose_service, compose_project,
  handle_event, publish_from_event, is_managed, action_of, find_action, read_digits, inspect_state,
  prefix, get_snapshot,
}
use core_dashboard.Containers.Updates.{
  IsPublished, handle_event-IsPublished, observed_states, get_snapshot-IsSorted,
}
use core_dashboard.Containers.Stream.{
  init, on_data, run, opened, ended, timer, data_event, on_module_destroy,
}
use core_dashboard.Containers.Stream.Chunks.{then_data, on_data-append}
use core_dashboard.Containers.Stream.Retry.{IsIdle, run-destroyed}

abbrev labels : Labels
labels = (compose_service, "web") ∷ (compose_project, "shop") ∷ ("exitCode", "137") ∷ []

abbrev info : ContainerInfo
info = record {
  id = "0123456789abcdef";
  name = "/web-1";
  labels = labels;
  image = "img";
  status = some running;
  health = some healthy;
  running = true;
  started_at = some "2026-01-01T00:00:00Z";
}

abbrev event : DockerEvent
event = record {
  action = some (codes "die");
  id = none;
  actor_id = some "0123456789abcdef";
  attributes = labels;
}

abbrev state : ServiceState
state = record {
  id = "0123456789ab";
  name = "web-1";
  service = "web";
  project = "shop";
  image = "img";
  status = running;
  health = healthy;
  started_at = some 1000;
  uptime_sec = some 2;
}

abbrev update : ServiceUpdate
update = record {
  service = "shop.web";
  state = state;
  occurred_at = 3000;
  action = die;
  exit_code = some 137;
}

handle_event-update :
    handle_event (λ id. some info) (λ at. 1000) (some "shop, blog") 3000 (some event) ≡ some update
unfolding handle_event publish_from_event is_managed action_of find_action read_digits inspect_state
    prefix lookup split trim pop service_key
handle_event-update = refl

handle_event-IsPublished_case :
    IsPublished (λ id. some info) (λ at. 1000) (some "shop, blog") 3000 event update
handle_event-IsPublished_case =
    handle_event-IsPublished (λ id. some info) (λ at. 1000) (some "shop, blog") 3000 event update
      handle_event-update

-- An order that does not tell names apart.
abbrev any_order : String → String → Bool
any_order a b = true

abbrev listed : List ListedContainer
listed =
    record { id = "1"; names = "/web-1" ∷ []; labels = labels }
    ∷ record { id = "2"; names = []; labels = [] }
    ∷ []

get_snapshot-IsSorted_case :
    IsSorted
      (λ (a b : ServiceState). any_order a.name b.name)
      (get_snapshot (λ id. some info) (λ at. 1000) none 3000 any_order listed).services
    × ((test : ServiceState → Bool)
        → count test
            (get_snapshot (λ id. some info) (λ at. 1000) none 3000 any_order listed).services
          ≡ count test (observed_states (λ id. some info) (λ at. 1000) none 3000 listed))
get_snapshot-IsSorted_case =
    get_snapshot-IsSorted (λ id. some info) (λ at. 1000) none 3000 any_order (λ a b c h k. refl)
      (λ a b h. refl) listed

on_data-append_case :
    on_data (codes "{}\n{" ++ codes "}\n") (codes "x")
    ≡ then_data (codes "}\n") (on_data (codes "{}\n{") (codes "x"))
on_data-append_case = on_data-append (codes "{}\n{") (codes "}\n") (codes "x")

run-destroyed_case :
    All IsIdle
      (run (ended ∷ timer ∷ opened ∷ data_event (codes "{}\n") ∷ []) (on_module_destroy init).0).1
run-destroyed_case = run-destroyed (ended ∷ timer ∷ opened ∷ data_event (codes "{}\n") ∷ []) init
