-- ===== src/Fanout.antt =====
-- apps/api/src: an event of Docker from ContainersService (containers/containers.service.ts) to its
-- two listeners, LiveGateway (gateway/live.gateway.ts) and AlertsService (alerts/alerts.service.ts).
-- The emitter calls them one after the other, in the same turn.
pub mod Crash
mod Tests
use core_dashboard.Prelude.{ℕ, String, Option, none, some, List, [], Text}
use core_dashboard.Shared.Events.{ServiceUpdate}
use core_dashboard.Containers.{ContainerInfo, DockerEvent, handle_event}
use core_dashboard.Gateway.{Sockets, publish_update}
use core_dashboard.Alerts.{AlertsService, Effect, handle_update}

-- The sockets of the gateway, once it is up, and the alerts.
pub record Listeners : Type 0 where
  pub sockets : Option Sockets
  pub alerts : AlertsService

-- The sockets that the update is sent to, and what the alerts ask for.
pub record Delivery : Type 0 where
  pub sent : List Text
  pub asked : List Effect

-- `emitter.emit("update", ...)`, if there is one.
abbrev pub emit : Option ServiceUpdate → Listeners → Listeners × Delivery
emit none s = (s, record { sent = []; asked = [] })
emit (some update) s =
    let (alerts, effects) = handle_update update s.alerts in
    (
      record s { alerts = alerts },
      record { sent = publish_update s.sockets update; asked = effects },
    )

module _ (inspect : String → Option ContainerInfo) (parse_date : String → ℕ)
    (projects : Option String) (now : ℕ) where
  unfoldable pub on_docker_event : Option DockerEvent → Listeners → Listeners × Delivery
  on_docker_event event s = emit (handle_event inspect parse_date projects now event) s
