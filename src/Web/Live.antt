-- ===== src/Web/Live.antt =====
-- apps/web/src/lib/live: the list of services (state.ts) and the buffer of the log viewer
-- (logs-buffer.ts). What `localeCompare` finds is a parameter.
pub mod Lists
pub mod Units
mod Tests
use core_dashboard.Prelude.{
  ℕ, ◌+◌, ◌-◌, ◌/◌, ◌%◌, String, Bool, true, false, not, ◌||◌, Option, none, some, List, [], ◌∷◌,
  ◌++◌, filter, length, drop, ltb, ◌==◌, string_equality, if◌then◌else◌,
}
use core_dashboard.Shared.Events.{
  ServiceState, ServiceUpdate, ContainerStatus, created, running, paused, restarting, exited, dead,
  ContainerHealth, healthy, unhealthy, starting, no_health, LogLine, LogsBatch,
}
use core_dashboard.Shared.Sorting.{sort}

-- The sign of `localeCompare`.
pub data Comparison : Type 0 where
  before same after : Comparison

-- `project.localeCompare(...) || service.localeCompare(...)` is not positive.
abbrev pub then_by : Comparison → Comparison → Bool
then_by before second = true
then_by same before = true
then_by same same = true
then_by same after = false
then_by after second = false

module _ (compare : String → String → Comparison) where
  abbrev pub in_order : ServiceState → ServiceState → Bool
  in_order a b = then_by (compare a.project b.project) (compare a.service b.service)

  unfoldable pub sort_services : List ServiceState → List ServiceState
  sort_services services = sort in_order services

  unfoldable pub apply_update : List ServiceState → ServiceUpdate → List ServiceState
  apply_update services update =
      sort_services (filter (λ s. not (s.name == update.state.name)) services ++ update.state ∷ [])

pub data StatusTone : Type 0 where
  ok warn down : StatusTone

abbrev pub is_down : ContainerStatus → ContainerHealth → Bool
is_down _ unhealthy = true
is_down dead _ = true
is_down exited _ = true
is_down _ _ = false

abbrev pub is_warn : ContainerStatus → ContainerHealth → Bool
is_warn _ starting = true
is_warn restarting _ = true
is_warn paused _ = true
is_warn created _ = true
is_warn _ _ = false

abbrev pub status_tone : ContainerStatus → ContainerHealth → StatusTone
status_tone status health =
    if is_down status health then down else if is_warn status health then warn else ok

-- The status of a card is its health while it runs, if there is a health check.
pub data StatusLabel : Type 0 where
  of_health : ContainerHealth → StatusLabel
  of_status : ContainerStatus → StatusLabel

unfoldable pub status_label : ContainerStatus → ContainerHealth → StatusLabel
status_label running no_health = of_status running
status_label running h = of_health h
status_label status _ = of_status status

-- The two units that are shown.
pub data Uptime : Type 0 where
  days_hours hours_minutes minutes_seconds : ℕ → ℕ → Uptime
  only_seconds : ℕ → Uptime

-- On the seconds.
unfoldable pub units_of : ℕ → Uptime
units_of total =
    let days = total / 86400 in
    let hours = total % 86400 / 3600 in
    let minutes = total % 3600 / 60 in
    if ltb 0 days
    then days_hours days hours
    else if ltb 0 hours
    then hours_minutes hours minutes
    else if ltb 0 minutes
    then minutes_seconds minutes (total % 60)
    else only_seconds (total % 60)

-- `started_at` is what `Date.parse` makes of the text, and the difference not less than 0.
unfoldable pub format_uptime : Option ℕ → ℕ → Option Uptime
format_uptime none now = none
format_uptime (some started_at) now = some (units_of ((now - started_at) / 1000))

pub record LogsBuffer : Type 0 where
  pub lines : List LogLine
  pub dropped : ℕ

abbrev pub empty_logs_buffer : LogsBuffer
empty_logs_buffer = record { lines = []; dropped = 0 }

-- `slice(overflow)` of nothing too many is the list itself.
unfoldable pub append_batch : ℕ → LogsBuffer → LogsBatch → LogsBuffer
append_batch max buffer batch =
    let together = buffer.lines ++ batch.lines in
    let overflow = length together - max in
    record {
      lines = if ltb 0 overflow then drop overflow together else together;
      dropped = buffer.dropped + batch.dropped + overflow;
    }

unfoldable pub append_all : ℕ → LogsBuffer → List LogsBatch → LogsBuffer
append_all max buffer [] = buffer
append_all max buffer (batch ∷ batches) = append_all max (append_batch max buffer batch) batches
