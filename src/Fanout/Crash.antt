-- ===== src/Fanout/Crash.antt =====
-- What becomes of a container's end: containers.service.ts, live.gateway.ts and alerts.service.ts in
-- apps/api/src.
use core_dashboard.Prelude.{
  ℕ, String, ◌≡◌, refl, sym, subst, ap, Option, some, List, [], ◌∷◌, ◌++◌, ◌∙◌, ◌&&◌, not, Bool,
  length, if◌then◌else◌, Text, codes, contains, text_equality, string_equality, arith,
}
use core_dashboard.Shared.Events.{ServiceUpdate, die}
use core_dashboard.Shared.Maps.{remove, lookup-insert}
use core_dashboard.Containers.{ContainerInfo, DockerEvent, handle_event}
use core_dashboard.Gateway.{Input, Sockets, on_subscribe, sanitize_services, publish_update}
use core_dashboard.Gateway.Rooms.{receives_iff}
use core_dashboard.Alerts.{
  Alert, AlertsService, Effect, Event, ask, send, down, handle, handle_update, schedule_die_alert,
  timer_fired, fire, fired, answered, answer, pick, maybe_alert, maybe_alert_answered, is_enabled,
  is_on_cooldown, step, run,
}
use core_dashboard.Fanout.{Listeners, Delivery, emit, on_docker_event}

-- A socket that has subscribed to services, before others.
abbrev pub subscriber : Text → Input → Sockets → Sockets
subscriber socket_id input others = (socket_id, (on_subscribe input []).0) ∷ others

sent-subscriber :
    (socket_id : Text) (input : Input) (others : Sockets) (update : ServiceUpdate)
    → publish_update (some (subscriber socket_id input others)) update ≡ (
        if contains (codes update.service) (sanitize_services input)
        then socket_id ∷ publish_update (some others) update
        else publish_update (some others) update)
unfolding publish_update
sent-subscriber socket_id input others update =
    ground (arith, receives_iff (codes update.service) input [])

pick-last :
    (others : List Alert) (a : Alert) → pick (length others) (others ++ a ∷ []) ≡ some (a, others)
unfolding pick
pick-last [] a = refl
pick-last (b ∷ others) a = rw (pick-last others a) refl

-- What comes of an alert when the database answers with its setting: it is sent to the bot, unless it
-- is turned off or one of its kind was sent for the container less than a minute before.
abbrev pub outcome : Alert → Option Bool → ℕ → AlertsService → List Effect
outcome a setting at s =
    if is_enabled setting && not (is_on_cooldown a at s) then send a at ∷ [] else []

answered-outcome :
    (a : Alert) (setting : Option Bool) (at : ℕ) (others : List Alert) (s t : AlertsService)
    → t.last_alert_at ≡ s.last_alert_at
    → (maybe_alert_answered a setting at (record t { waiting = others })).1 ++ []
      ≡ outcome a setting at s
unfolding maybe_alert_answered is_on_cooldown
answered-outcome a setting at others s t e = ground arith

-- What follows the end of a container: the timer fires, and the database answers.
abbrev pub follow_up : String → Option Bool → ℕ → AlertsService → List Event
follow_up name setting at s = fired name ∷ answered (length s.waiting) setting at ∷ []

told-die :
    (update : ServiceUpdate) (setting : Option Bool) (at : ℕ) (s : AlertsService)
    → (run (follow_up update.state.name setting at s) (handle die update s).0).1
      ≡ ask (down update.state.name update.exit_code)
        ∷ outcome (down update.state.name update.exit_code) setting at s
unfolding run step timer_fired schedule_die_alert maybe_alert
told-die update setting at s =
    let name = update.state.name in
    let a = down name update.exit_code in
    let after = schedule_die_alert name update.exit_code s in
    let then_answered : AlertsService × List Effect → List Effect =
      λ r. r.1 ++ ((answer (pick (length s.waiting) r.0.waiting) setting at r.0).1 ++ []) in
    let u = (fire name (some update.exit_code) after).0 in
    ap (λ pending. then_answered (fire name pending after))
      (lookup-insert name update.exit_code (remove name s.pending_die_alerts))
    ∙ ap (λ picked. ask a ∷ ((answer picked setting at u).1 ++ [])) (pick-last s.waiting a)
    ∙ ap (◌∷◌ (ask a)) (answered-outcome a setting at s.waiting s u refl)

-- The end of a container asks for nothing at once.
told :
    (update : ServiceUpdate) (setting : Option Bool) (at : ℕ) (s : AlertsService)
    → update.action ≡ die
    → ((handle_update update s).1 ≡ [])
      × ((run (follow_up update.state.name setting at s) (handle_update update s).0).1
          ≡ ask (down update.state.name update.exit_code)
            ∷ outcome (down update.state.name update.exit_code) setting at s)
unfolding handle_update
told update setting at s e =
    subst
      (λ a.
        ((handle a update s).1 ≡ [])
        × ((run (follow_up update.state.name setting at s) (handle a update s).0).1
            ≡ ask (down update.state.name update.exit_code)
              ∷ outcome (down update.state.name update.exit_code) setting at s))
      (sym e) (refl, told-die update setting at s)

-- How the end of a container is told: to a socket that has subscribed, before others, exactly if
-- the service is among those that the gateway took, and to the bot when the timer fires next and the
-- database answers, with the setting and the time given.
abbrev pub IsTold :
    ServiceUpdate
    → Text
    → Input
    → Sockets
    → AlertsService
    → Option Bool
    → ℕ
    → Listeners × Delivery
    → Type 0
IsTold update socket_id input others alerts setting at (s, delivery) =
    let rest = publish_update (some others) update in
    let a = down update.state.name update.exit_code in
    (delivery.sent ≡ (
      if contains (codes update.service) (sanitize_services input) then socket_id ∷ rest else rest))
    × (delivery.asked ≡ [])
    × ((run (follow_up update.state.name setting at alerts) s.alerts).1
        ≡ ask a ∷ outcome a setting at alerts)

module _ (inspect : String → Option ContainerInfo) (parse_date : String → ℕ)
    (projects : Option String) (now : ℕ) where
  -- When Docker's event is published as the end of a container, it is sent to a socket that has
  -- subscribed exactly if its service is among those that the gateway took, whatever other sockets
  -- there are. No alert is asked for at once; when the container's timer fires next, the setting is
  -- asked for, and when the database answers, the alert on being down is sent to the bot with the
  -- event's exit code, unless it is turned off or within the minute of the one before.
  pub on_docker_event-die :
      (event : DockerEvent) (update : ServiceUpdate) (socket_id : Text) (input : Input)
      (others : Sockets) (alerts : AlertsService) (setting : Option Bool) (at : ℕ)
      → handle_event inspect parse_date projects now (some event) ≡ some update
      → update.action ≡ die
      → IsTold update socket_id input others alerts setting at (
          on_docker_event inspect parse_date projects now
            (some event)
            (record { sockets = some (subscriber socket_id input others); alerts = alerts }))
  unfolding on_docker_event
  on_docker_event-die event update socket_id input others alerts setting at e dies =
      let s : Listeners = record {
        sockets = some (subscriber socket_id input others);
        alerts = alerts;
      } in
      let (quiet, later) = told update setting at alerts dies in
      subst (λ u. IsTold update socket_id input others alerts setting at (emit u s)) (sym e)
        (sent-subscriber socket_id input others update, quiet, later)
