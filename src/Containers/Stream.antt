-- ===== src/Containers/Stream.antt =====
-- `subscribeToDockerEvents` and `scheduleRetry` of apps/api/src/containers/containers.service.ts:
-- the subscription to Docker's events, its buffer, and the retry timer. `getEvents` answers later
-- than it is asked, by an event of its own.
pub mod Chunks
pub mod Retry
use core_dashboard.Prelude.{
  ℕ, Bool, true, false, not, ◌&&◌, ◌||◌, List, [], ◌∷◌, ◌++◌, filter, length, leb, if◌then◌else◌,
  Text, split, trim,
}
use core_dashboard.Logs.Lines.{pop}

pub record EventStream : Type 0 where
  pub subscribed : Bool
  pub buffer : Text
  pub retry_timer : Bool
  pub stopped : Bool

abbrev pub init : EventStream
init = record { subscribed = false; buffer = []; retry_timer = false; stopped = false }

-- `if (line.trim())`.
abbrev pub is_line : Text → Bool
is_line line = leb 1 (length (trim line))

-- The lines that are handled, and the buffer left.
unfoldable pub on_data : Text → Text → List Text × Text
on_data chunk buffer =
    let (lines, rest) = pop (split b'\n' (buffer ++ chunk)) in (filter is_line lines, rest)

pub data Effect : Type 0 where
  get_events set_timer clear_timer destroy_stream : Effect
  line : Text → Effect

unfoldable pub subscribe : EventStream → EventStream × List Effect
subscribe s = if s.stopped then (s, []) else (s, get_events ∷ [])

unfoldable pub schedule_retry : EventStream → EventStream × List Effect
schedule_retry s =
    if s.stopped || s.retry_timer
    then (s, [])
    else (record s { retry_timer = true }, set_timer ∷ [])

-- The answer of `getEvents`.
unfoldable pub subscribed_ok : EventStream → EventStream × List Effect
subscribed_ok s = (record s { subscribed = true; buffer = [] }, [])

-- The callback of the timer.
unfoldable pub timer_fired : EventStream → EventStream × List Effect
timer_fired s = if s.retry_timer then subscribe (record s { retry_timer = false }) else (s, [])

abbrev pub handled : List Text → List Effect
handled [] = []
handled (text ∷ lines) = line text ∷ handled lines

unfoldable pub data_came : Text → EventStream → EventStream × List Effect
data_came chunk s =
    let (lines, rest) = on_data chunk s.buffer in (record s { buffer = rest }, handled lines)

abbrev if_set : Bool → Effect → List Effect
if_set true e = e ∷ []
if_set false e = []

-- A timer that is cleared does not fire.
unfoldable pub on_module_destroy : EventStream → EventStream × List Effect
on_module_destroy s = (
  record s { stopped = true; retry_timer = false },
  if_set s.retry_timer clear_timer ++ if_set s.subscribed destroy_stream,
)

pub data Event : Type 0 where
  opened failed ended timer destroyed : Event
  data_event : Text → Event

unfoldable pub step : Event → EventStream → EventStream × List Effect
step opened s = subscribed_ok s
step failed s = schedule_retry s
step ended s = schedule_retry s
step timer s = timer_fired s
step destroyed s = on_module_destroy s
step (data_event chunk) s = data_came chunk s

unfoldable pub run : List Event → EventStream → EventStream × List Effect
run [] s = (s, [])
run (e ∷ events) s =
    let (t, effects) = step e s in let (u, more) = run events t in (u, effects ++ more)
