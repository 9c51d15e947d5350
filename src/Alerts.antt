-- ===== src/Alerts.antt =====
-- apps/api/src/alerts: the alerts on containers that go down or restart (alerts.service.ts), the
-- poll of the bot's feed, the settings and the feed's parameters. A timer that fires and a
-- setting that the database answers with are events of their own, as they come later than the
-- call that asked for them.
pub mod Cooldown
pub mod Coalescing
pub mod Poller
pub mod Settings
mod Tests
use Prim.Native.String
use core_dashboard.Prelude.{
  ℕ, zero, suc, ◌-◌, String, Bool, true, false, Option, none, some, List, [], ◌∷◌, ◌++◌, ltb,
  if◌then◌else◌, contains, string_equality,
}
use core_dashboard.Shared.Events.{ServiceUpdate, ContainerLifecycleAction, die, restart, start}
use core_dashboard.Shared.Maps.{lookup, insert, remove, add}

abbrev pub container_down_alert_key : String
container_down_alert_key = "container_down"

abbrev pub container_restarted_alert_key : String
container_restarted_alert_key = "container_restarted"

abbrev pub cooldown_ms : ℕ
cooldown_ms = 60000

abbrev pub die_restart_coalesce_ms : ℕ
die_restart_coalesce_ms = 3000

-- A call of `maybeAlert`: the exit code belongs to the message of `die`.
pub data Alert : Type 0 where
  down : String → Option ℕ → Alert
  restarted : String → Alert

abbrev pub container_of : Alert → String
container_of (down name exit_code) = name
container_of (restarted name) = name

abbrev pub setting_key : Alert → String
setting_key (down name exit_code) = container_down_alert_key
setting_key (restarted name) = container_restarted_alert_key

unfoldable pub cooldown_key : Alert → String
cooldown_key (down name exit_code) = String.◌++◌ "die:" name
cooldown_key (restarted name) = String.◌++◌ "restart:" name

-- `pending_die_alerts` holds the exit code that the timer's closure keeps; `waiting` are the
-- calls of `maybeAlert` that wait for `isEnabled`, the oldest first.
pub record AlertsService : Type 0 where
  pub last_alert_at : List (String × ℕ)
  pub pending_die_alerts : List (String × Option ℕ)
  pub seen_containers : List String
  pub waiting : List Alert

abbrev pub init : AlertsService
init = record { last_alert_at = []; pending_die_alerts = []; seen_containers = []; waiting = [] }

-- `findUnique` of the setting; the message to the bot, at the time of the record.
pub data Effect : Type 0 where
  ask : Alert → Effect
  send : Alert → ℕ → Effect

abbrev pub cancel_pending_die_alert : String → AlertsService → AlertsService
cancel_pending_die_alert name s = record s { pending_die_alerts = remove name s.pending_die_alerts }

unfoldable pub schedule_die_alert : String → Option ℕ → AlertsService → AlertsService
schedule_die_alert name exit_code s =
    let t = cancel_pending_die_alert name s in
    record t { pending_die_alerts = insert name exit_code t.pending_die_alerts }

-- `maybeAlert` up to its first `await`.
unfoldable pub maybe_alert : Alert → AlertsService → AlertsService × List Effect
maybe_alert a s = (record s { waiting = s.waiting ++ a ∷ [] }, ask a ∷ [])

unfoldable pub alert_restarted : String → AlertsService → AlertsService × List Effect
alert_restarted name s = maybe_alert (restarted name) (cancel_pending_die_alert name s)

-- `isRedeployStart` for a `start`: the test, then the record.
unfoldable pub started : String → AlertsService → AlertsService × List Effect
started name s =
    let t = record s { seen_containers = add name s.seen_containers } in
    if contains name s.seen_containers then alert_restarted name t else (t, [])

abbrev pub handle :
    ContainerLifecycleAction → ServiceUpdate → AlertsService → AlertsService × List Effect
handle die update s = (schedule_die_alert update.state.name update.exit_code s, [])
handle restart update s = alert_restarted update.state.name s
handle start update s = started update.state.name s
handle _ update s = (s, [])

unfoldable pub handle_update : ServiceUpdate → AlertsService → AlertsService × List Effect
handle_update update s = handle update.action update s

-- The callback of the timer of a container, if it is still pending.
abbrev pub fire : String → Option (Option ℕ) → AlertsService → AlertsService × List Effect
fire name none s = (s, [])
fire name (some exit_code) s = maybe_alert (down name exit_code) (cancel_pending_die_alert name s)

unfoldable pub timer_fired : String → AlertsService → AlertsService × List Effect
timer_fired name s = fire name (lookup name s.pending_die_alerts) s

-- `setting?.enabled ?? true`.
abbrev pub is_enabled : Option Bool → Bool
is_enabled none = true
is_enabled (some enabled) = enabled

abbrev pub cooling : Option ℕ → ℕ → Bool
cooling none now = false
cooling (some last) now = ltb (now - last) cooldown_ms

unfoldable pub is_on_cooldown : Alert → ℕ → AlertsService → Bool
is_on_cooldown a now s = cooling (lookup (cooldown_key a) s.last_alert_at) now

-- `maybeAlert` from the database's answer on.
unfoldable pub maybe_alert_answered :
    Alert → Option Bool → ℕ → AlertsService → AlertsService × List Effect
maybe_alert_answered a setting now s =
    if is_enabled setting
    then (if is_on_cooldown a now s then (s, []) else (
      record s { last_alert_at = insert (cooldown_key a) now s.last_alert_at },
      send a now ∷ [],
    ))
    else (s, [])

-- The waiting call that the database answers, taken out of the others.
unfoldable pub pick : ℕ → List Alert → Option (Alert × List Alert)
pick n [] = none
pick zero (a ∷ rest) = some (a, rest)
pick (suc n) (a ∷ rest) = elim (pick n rest) [
  | none ↦ none
  | some (b, others) ↦ some (b, a ∷ others)
]

abbrev pub answer :
    Option (Alert × List Alert) → Option Bool → ℕ → AlertsService → AlertsService × List Effect
answer none setting now s = (s, [])
answer (some (a, others)) setting now s =
    maybe_alert_answered a setting now (record s { waiting = others })

unfoldable pub on_module_destroy : AlertsService → AlertsService
on_module_destroy s = record s { pending_die_alerts = [] }

-- An answer names the waiting call by its place, and carries the row's `enabled`, if there is a
-- row, and the clock.
pub data Event : Type 0 where
  updated : ServiceUpdate → Event
  fired : String → Event
  answered : ℕ → Option Bool → ℕ → Event
  destroyed : Event

unfoldable pub step : Event → AlertsService → AlertsService × List Effect
step (updated update) s = handle_update update s
step (fired name) s = timer_fired name s
step (answered n setting now) s = answer (pick n s.waiting) setting now s
step destroyed s = (on_module_destroy s, [])

unfoldable pub run : List Event → AlertsService → AlertsService × List Effect
run [] s = (s, [])
run (e ∷ events) s =
    let (t, effects) = step e s in let (u, more) = run events t in (u, effects ++ more)
