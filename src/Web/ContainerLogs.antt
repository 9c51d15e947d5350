-- ===== src/Web/ContainerLogs.antt =====
-- apps/web/src/lib/live/use-container-logs.ts: the log viewer's subscription and its buffer. The
-- effect and its cleanup run when the socket, the container or the status changes.
pub mod Account
mod Tests
use core_dashboard.Prelude.{
  ℕ, ◌+◌, String, Bool, true, false, ◌&&◌, Option, none, some, List, [], ◌∷◌, ◌++◌, if◌then◌else◌,
  ◌==◌, string_equality,
}
use core_dashboard.Shared.Events.{LogsBatch, LogsAck}
use core_dashboard.Shared.Fetch.{is_set}
use core_dashboard.Web.Live.{LogsBuffer, empty_logs_buffer, append_batch}

abbrev pub max_lines : ℕ
max_lines = 1000

-- `listening` is the container that the effect's listener compares a batch with.
pub record ContainerLogs : Type 0 where
  pub buffer : LogsBuffer
  pub error : Option String
  pub listening : Option String

abbrev pub new : ContainerLogs
new = record { buffer = empty_logs_buffer; error = none; listening = none }

-- What is emitted on the socket.
pub data Call : Type 0 where
  subscribe unsubscribe : String → Call

abbrev pub reset : ContainerLogs → ContainerLogs
reset s = record s { buffer = empty_logs_buffer; error = none; listening = none }

abbrev pub listen : Option String → ContainerLogs → ContainerLogs × List Call
listen none s = (s, [])
listen (some container) s = (record s { listening = some container }, subscribe container ∷ [])

-- `ready` tells whether there is a socket and the status is `live`.
unfoldable pub run_effect : Bool → Option String → ContainerLogs → ContainerLogs × List Call
run_effect ready container s =
    if ready && is_set container then listen container (reset s) else (reset s, [])

abbrev pub stop_listening : Option String → ContainerLogs → ContainerLogs × List Call
stop_listening none s = (s, [])
stop_listening (some container) s = (record s { listening = none }, unsubscribe container ∷ [])

unfoldable pub clean_up : ContainerLogs → ContainerLogs × List Call
clean_up s = stop_listening s.listening s

-- The dependencies change: the cleanup of the old effect, and then the new one.
unfoldable pub change : Bool → Option String → ContainerLogs → ContainerLogs × List Call
change ready container s =
    let (t, calls) = clean_up s in
    let (u, more) = run_effect ready container t in (u, calls ++ more)

abbrev pub no_stream : String
no_stream = "no se pudo abrir el stream"

-- `result.error ?? "no se pudo abrir el stream"`.
abbrev pub error_of : Option String → String
error_of none = no_stream
error_of (some message) = message

-- The answer to a subscription, which may be that of an effect that was cleaned up.
unfoldable pub subscribed : Option LogsAck → ContainerLogs → ContainerLogs
subscribed none s = record s { error = some no_stream }
subscribed (some ack) s = if ack.ok then s else record s { error = some (error_of ack.error) }

abbrev pub is_for : Option String → String → Bool
is_for none container = false
is_for (some own) container = container == own

-- The listener: the state after a batch, and how many acknowledgements are given. The effect's own
-- batches are shown, and each batch is acknowledged while the listener is there.
unfoldable pub show_batch : LogsBatch → ContainerLogs → ContainerLogs
show_batch batch s =
    if is_for s.listening batch.container
    then record s { buffer = append_batch max_lines s.buffer batch }
    else s

abbrev pub acks : Option String → ℕ
acks none = 0
acks (some own) = 1

unfoldable pub on_batch : LogsBatch → ContainerLogs → ContainerLogs × ℕ
on_batch batch s = (show_batch batch s, acks s.listening)

unfoldable pub on_batches : List LogsBatch → ContainerLogs → ContainerLogs × ℕ
on_batches [] s = (s, 0)
on_batches (batch ∷ batches) s =
    let (t, one) = on_batch batch s in let (u, more) = on_batches batches t in (u, one + more)
