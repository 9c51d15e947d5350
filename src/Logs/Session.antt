-- ===== src/Logs/Session.antt =====
-- apps/api/src/logs/log-session.ts: one client's stream of one container, with backpressure.
-- `flush` waits only at `await this.emit(...)`, so it is cut there: a step runs up to the next
-- emitted batch, and `acked` and `timed_out` are what follows when the promise settles. The calls
-- that the session makes to the source, the emitter and `onClose` are listed in `effects`, the
-- latest first.
pub mod Measures
pub mod Invariant
pub mod Accounting
pub mod Order
pub mod Drain
mod Tests
use core_dashboard.Prelude.{
  ℕ, ◌+◌, String, Bool, true, false, not, ◌&&◌, ◌||◌, List, [], ◌∷◌, ◌++◌, leb, if◌then◌else◌,
  length, take, drop,
}
use core_dashboard.Shared.Events.{LogLine, LogsBatch}

pub record LogSessionOptions : Type 0 where
  pub container : String
  pub batch_size : ℕ
  pub max_queue : ℕ
  pub high_water : ℕ
  pub low_water : ℕ
  pub ack_timeout_ms : ℕ

-- `DEFAULT_SESSION_OPTIONS`.
abbrev pub default_session_options : String → LogSessionOptions
default_session_options container = record {
  container = container;
  batch_size = 100;
  max_queue = 2000;
  high_water = 1000;
  low_water = 200;
  ack_timeout_ms = 10000;
}

pub data Effect : Type 0 where
  pause_source resume_source destroy_source on_close : Effect
  emit : LogsBatch → ℕ → Effect

pub record LogSession : Type 0 where
  pub options : LogSessionOptions
  pub queue : List LogLine
  pub dropped : ℕ
  pub paused : Bool
  pub sending : Bool
  pub closed : Bool
  pub ending : Bool
  pub has_source : Bool
  pub effects : List Effect

unfoldable pub new : LogSessionOptions → LogSession
new options = record {
  options = options;
  queue = [];
  dropped = 0;
  paused = false;
  sending = false;
  closed = false;
  ending = false;
  has_source = false;
  effects = [];
}

-- `this.source?.pause()` and the like.
abbrev pub call_source : Effect → LogSession → LogSession
call_source e s = if s.has_source then record s { effects = e ∷ s.effects } else s

unfoldable pub attach_source : LogSession → LogSession
attach_source s =
    if s.closed
    then record s { effects = destroy_source ∷ s.effects }
    else record s { has_source = true }

unfoldable pub close : LogSession → LogSession
close s =
    if s.closed
    then s
    else (let t = call_source destroy_source (record s { closed = true; queue = [] }) in
        record t { effects = on_close ∷ t.effects })

unfoldable pub maybe_finish_ending : LogSession → LogSession
maybe_finish_ending s =
    if s.ending && not s.sending && leb (length s.queue) 0 && not s.closed then close s else s

unfoldable pub end : LogSession → LogSession
end s =
    if s.closed || s.ending
    then s
    else maybe_finish_ending (record s { ending = true; has_source = false })

-- `if (this.paused && this.queue.length <= lowWater)`.
unfoldable pub relieve : LogSession → LogSession
relieve s =
    if s.paused && leb (length s.queue) s.options.low_water
    then call_source resume_source (record s { paused = false })
    else s

-- One round of the loop: splice a batch, reset the count, emit.
unfoldable pub send_batch : LogSession → LogSession
send_batch s =
    let batch : LogsBatch = record {
      container = s.options.container;
      lines = take s.options.batch_size s.queue;
      dropped = s.dropped;
    } in
    let t = relieve (record s { queue = drop s.options.batch_size s.queue; dropped = 0 }) in
    record t { effects = emit batch s.options.ack_timeout_ms ∷ t.effects }

-- The `finally` block.
unfoldable pub finish : LogSession → LogSession
finish s = maybe_finish_ending (record s { sending = false })

-- The test of the `while` loop, up to the next `await`.
unfoldable pub continue_flush : LogSession → LogSession
continue_flush s = if leb 1 (length s.queue) && not s.closed then send_batch s else finish s

unfoldable pub flush : LogSession → LogSession
flush s = if s.sending || s.closed then s else continue_flush (record s { sending = true })

-- The first guard of `push`: a full queue loses its oldest line.
unfoldable pub make_room : LogSession → LogSession
make_room s =
    if leb s.options.max_queue (length s.queue)
    then record s { queue = drop 1 s.queue; dropped = s.dropped + 1 }
    else s

-- The second: a long queue pauses the source.
unfoldable pub press : LogSession → LogSession
press s =
    if not s.paused && leb s.options.high_water (length s.queue)
    then call_source pause_source (record s { paused = true })
    else s

abbrev pub enqueue : LogLine → LogSession → LogSession
enqueue line s = record s { queue = s.queue ++ line ∷ [] }

unfoldable pub push : LogLine → LogSession → LogSession
push line s = if s.closed then s else flush (press (enqueue line (make_room s)))

-- The promise of `emit` resolves: the loop goes on.
unfoldable pub acked : LogSession → LogSession
acked s = continue_flush s

-- It rejects: `catch` closes, `finally` follows.
unfoldable pub timed_out : LogSession → LogSession
timed_out s = finish (close s)

pub data Event : Type 0 where
  pushed : LogLine → Event
  attached ended cancelled settled expired : Event

-- What the event loop can run on a session. A promise settles only while a batch is in flight.
unfoldable pub step : Event → LogSession → LogSession
step (pushed line) s = push line s
step attached s = attach_source s
step ended s = end s
step cancelled s = close s
step settled s = if s.sending then acked s else s
step expired s = if s.sending then timed_out s else s

unfoldable pub run : List Event → LogSession → LogSession
run [] s = s
run (e ∷ es) s = run es (step e s)
