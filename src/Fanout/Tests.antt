-- ===== src/Fanout/Tests.antt =====
-- The end of a container, whose inspection fails, with two sockets.
use core_dashboard.Prelude.{refl, ◌≡◌, none, some, true, [], ◌∷◌, codes, text_equality, split, trim}
use core_dashboard.Shared.Values.{text}
use core_dashboard.Shared.Maps.{lookup}
use core_dashboard.Shared.Events.{ServiceUpdate, exited, no_health, die, service_key}
use core_dashboard.Containers.{
  DockerEvent, Labels, compose_service, compose_project, handle_event, publish_from_event,
  is_managed, action_of, find_action, read_digits, inspect_state, prefix,
}
use core_dashboard.Gateway.{Input, array, Sockets}
use core_dashboard.Alerts.{init}
use core_dashboard.Fanout.{on_docker_event}
use core_dashboard.Fanout.Crash.{subscriber, IsTold, on_docker_event-die}

abbrev labels : Labels
labels =
    (compose_service, "web")
    ∷ (compose_project, "shop")
    ∷ ("name", "web-1")
    ∷ ("image", "img")
    ∷ ("exitCode", "137")
    ∷ []

abbrev death : DockerEvent
death = record { action = some (codes "die"); id = some "1"; actor_id = none; attributes = labels }

abbrev gone : ServiceUpdate
gone = record {
  service = "shop.web";
  state = record {
    id = "1";
    name = "web-1";
    service = "web";
    project = "shop";
    image = "img";
    status = exited;
    health = no_health;
    started_at = none;
    uptime_sec = none;
  };
  occurred_at = 3000;
  action = die;
  exit_code = some 137;
}

handle_event-gone : handle_event (λ id. none) (λ at. 0) none 3000 (some death) ≡ some gone
unfolding handle_event publish_from_event is_managed action_of find_action read_digits inspect_state
    prefix lookup split trim service_key
handle_event-gone = refl

abbrev input : Input
input = array (text (codes "shop.web") ∷ [])

abbrev others : Sockets
others = (codes "s2", []) ∷ []

on_docker_event-die_example : IsTold gone (codes "s1") input others init (some true) 6000 (
    on_docker_event
      (λ id. none)
      (λ at. 0)
      none
      3000
      (some death)
      (record { sockets = some (subscriber (codes "s1") input others); alerts = init }))
on_docker_event-die_example =
    on_docker_event-die (λ id. none) (λ at. 0) none 3000 death gone (codes "s1") input others init
      (some true) 6000 handle_event-gone refl
