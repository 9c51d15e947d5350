-- ===== src/Web/ServiceCard.antt =====
-- apps/web/src/components/service-card.tsx: the card of a container, which is a button.
use core_dashboard.Prelude.{
  ℕ, String, Bool, false, ◌||◌, Option, none, some, List, [], ◌∷◌, if◌then◌else◌, ◌==◌,
  string_equality,
}
use core_dashboard.Shared.Events.{
  ServiceState, ContainerStatus, created, running, paused, restarting, exited, dead,
  ContainerHealth, healthy, unhealthy, starting, no_health,
}
use core_dashboard.Web.View.{
  Argument, count, Label, literal, message, Tone, plain, muted, success, warning, danger, chosen,
  text, button, View,
}
use core_dashboard.Web.Live.{
  StatusTone, ok, warn, down, status_tone, StatusLabel, of_health, of_status, status_label, Uptime,
  days_hours, hours_minutes, minutes_seconds, only_seconds, format_uptime,
}
use Prim.Native.String

abbrev pub tone_class : StatusTone → Tone
tone_class ok = success
tone_class warn = warning
tone_class down = danger

abbrev pub status_name : ContainerStatus → String
status_name created = "created"
status_name running = "running"
status_name paused = "paused"
status_name restarting = "restarting"
status_name exited = "exited"
status_name dead = "dead"

abbrev pub health_name : ContainerHealth → String
health_name healthy = "healthy"
health_name unhealthy = "unhealthy"
health_name starting = "starting"
health_name no_health = "none"

abbrev pub label_name : StatusLabel → String
label_name (of_health health) = health_name health
label_name (of_status status) = status_name status

abbrev pub uptime_arguments : Uptime → List (String × Argument)
uptime_arguments (days_hours d h) = ("d", count d) ∷ ("h", count h) ∷ []
uptime_arguments (hours_minutes h m) = ("h", count h) ∷ ("m", count m) ∷ []
uptime_arguments (minutes_seconds m s) = ("m", count m) ∷ ("s", count s) ∷ []
uptime_arguments (only_seconds s) = ("s", count s) ∷ []

-- `uptime ? t("uptime", { uptime }) : "—"`.
abbrev pub uptime_label : Option Uptime → Label
uptime_label none = literal "—"
uptime_label (some uptime) = message "serviceCard.uptime" (uptime_arguments uptime)

-- The keys that select the card, as a click does.
unfoldable pub on_key_down {ℓ} : {A : Type ℓ} → String → A → Option A
on_key_down key select = if key == "Enter" || key == " " then some select else none

module _ {A : Type 0} where
  -- What is written on a card.
  abbrev pub details : ServiceState → ℕ → View A
  details state now =
      let tone = tone_class (status_tone state.status state.health) in
      text tone (literal "")
      ∷ text muted (literal state.project)
      ∷ text muted (literal state.image)
      ∷ text tone (
          message
            (String.◌++◌ "serviceCard.status."
              (label_name (status_label state.status state.health)))
            [])
      ∷ text muted (uptime_label (format_uptime state.started_at now))
      ∷ []

  unfoldable pub view : ServiceState → ℕ → Bool → A → View A
  view state now selected select =
      button false (if selected then chosen else plain) (literal state.service) select
      ∷ details state now
