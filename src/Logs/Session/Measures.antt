-- ===== src/Logs/Session/Measures.antt =====
-- What can be read off the effects of a session: the lines that were emitted, in order, the
-- reported losses, and how often it emitted and closed.
use core_dashboard.Prelude.{ℕ, ◌+◌, Bool, true, false, List, [], ◌∷◌, ◌++◌, length}
use core_dashboard.Shared.Events.{LogLine}
use core_dashboard.Logs.Session.{
  Effect, emit, on_close, LogSession, Event, pushed, settled, expired, step,
}

abbrev pub sent : List Effect → List LogLine
sent [] = []
sent (emit batch timeout ∷ es) = sent es ++ batch.lines
sent (_ ∷ es) = sent es

abbrev pub reported : List Effect → ℕ
reported [] = 0
reported (emit batch timeout ∷ es) = reported es + batch.dropped
reported (_ ∷ es) = reported es

abbrev pub emits : List Effect → ℕ
emits [] = 0
emits (emit batch timeout ∷ es) = emits es + 1
emits (_ ∷ es) = emits es

abbrev pub closes : List Effect → ℕ
closes [] = 0
closes (on_close ∷ es) = closes es + 1
closes (_ ∷ es) = closes es

abbrev pub bit : Bool → ℕ
bit true = 1
bit false = 0

-- Lines that are emitted, reported as lost, about to be reported as lost, or in the queue.
abbrev pub account : LogSession → ℕ
account s = length (sent s.effects) + reported s.effects + s.dropped + length s.queue

-- Every line that is emitted or still in the queue.
abbrev pub history : LogSession → List LogLine
history s = sent s.effects ++ s.queue

-- The line that an event adds: one pushed while the session is open.
abbrev pub taken : Event → Bool → List LogLine
taken (pushed line) false = line ∷ []
taken _ _ = []

-- The lines that a run takes in.
abbrev pub accepted : List Event → LogSession → List LogLine
accepted [] s = []
accepted (e ∷ es) s = taken e s.closed ++ accepted es (step e s)

-- Whether an event is the answer to a batch in flight.
abbrev pub answers : Event → Bool → ℕ
answers settled true = 1
answers expired true = 1
answers _ _ = 0

abbrev pub answered : List Event → LogSession → ℕ
answered [] s = 0
answered (e ∷ es) s = answers e s.sending + answered es (step e s)
