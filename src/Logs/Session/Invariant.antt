-- ===== src/Logs/Session/Invariant.antt =====
-- The invariant of a session.
use core_dashboard.Prelude.{
  ◌≤◌, ◌≡◌, true, false, List, [], ◌∷◌, arith, length, length-append, length-drop, drop,
}
use core_dashboard.Shared.Events.{LogLine}
use core_dashboard.Logs.Session.{
  LogSessionOptions, LogSession, new, attach_source, close, maybe_finish_ending, end, relieve,
  send_batch, finish, continue_flush, flush, make_room, press, enqueue, push, acked, timed_out,
  Event, pushed, attached, ended, cancelled, settled, expired, step, run,
}
use core_dashboard.Logs.Session.Measures.{closes, bit}

-- The options that make sense: a batch holds a line, the queue too, and a queue that pauses the
-- source is not empty.
pub record IsSound (o : LogSessionOptions) : Type 0 where
  pub some_batch : 1 ≤ o.batch_size
  pub some_queue : 1 ≤ o.max_queue

pub record IsValid (s : LogSession) : Type 0 where
  pub bounded : length s.queue ≤ s.options.max_queue
  pub closed_empty : s.closed ≡ true → length s.queue ≡ 0
  pub idle_empty : s.sending ≡ false → length s.queue ≡ 0
  pub paused_waits : s.closed ≡ false → s.paused ≡ true → 1 ≤ length s.queue
  pub idle_ended : s.sending ≡ false → s.ending ≡ true → s.closed ≡ true
  pub closes_once : closes s.effects ≡ bit s.closed

pub new-IsValid : (o : LogSessionOptions) → IsValid (new o)
unfolding new
new-IsValid o = ground arith

attach_source-IsValid : (s : LogSession) → IsValid s → IsValid (attach_source s)
unfolding attach_source
attach_source-IsValid s v = ground arith

close-IsValid : (s : LogSession) → IsValid s → IsValid (close s)
unfolding close
close-IsValid s v = ground arith

-- What holds while the loop of `flush` runs.
record IsSending (s : LogSession) : Type 0 where
  bounded : length s.queue ≤ s.options.max_queue
  closed_empty : s.closed ≡ true → length s.queue ≡ 0
  paused_waits : s.closed ≡ false → s.paused ≡ true → 1 ≤ length s.queue
  closes_once : closes s.effects ≡ bit s.closed

valid-IsSending : (s : LogSession) → IsValid s → IsSending s
valid-IsSending s v = ground arith

-- The low-water test of the loop, on a queue that a batch has just left.
relieve-IsSending :
    (s : LogSession)
    → length s.queue ≤ s.options.max_queue
    → s.closed ≡ false
    → closes s.effects ≡ bit s.closed
    → IsSending (relieve s)
unfolding relieve
relieve-IsSending s h k c = ground arith

flags-relieve :
    (s : LogSession)
    → ((relieve s).sending ≡ s.sending)
      × ((relieve s).closed ≡ s.closed)
      × ((relieve s).ending ≡ s.ending)
unfolding relieve
flags-relieve s = ground arith

send_batch-IsSending : (s : LogSession) → s.closed ≡ false → IsSending s → IsSending (send_batch s)
unfolding send_batch
send_batch-IsSending s h v = ground (
  arith,
  relieve-IsSending (record s { queue = drop s.options.batch_size s.queue; dropped = 0 }),
  length-drop s.options.batch_size s.queue,
)

send_batch-sending :
    (s : LogSession) → ((send_batch s).sending ≡ s.sending) × ((send_batch s).closed ≡ s.closed)
unfolding send_batch
send_batch-sending s =
    ground
      (arith, flags-relieve (record s { queue = drop s.options.batch_size s.queue; dropped = 0 }))

IsSending-IsValid : (s : LogSession) → s.sending ≡ true → IsSending s → IsValid s
IsSending-IsValid s h v = ground arith

-- The loop ends with an empty queue only, so the session is then at rest.
finish-IsValid : (s : LogSession) → length s.queue ≡ 0 → IsSending s → IsValid (finish s)
unfolding finish maybe_finish_ending close
finish-IsValid s h v = ground arith

continue_flush-IsValid :
    (s : LogSession) → s.sending ≡ true → IsSending s → IsValid (continue_flush s)
unfolding continue_flush
continue_flush-IsValid s h v = ground (
  arith,
  send_batch-IsSending s,
  send_batch-sending s,
  IsSending-IsValid (send_batch s),
  finish-IsValid s,
)

flush-IsValid : (s : LogSession) → IsSending s → (s.closed ≡ true → IsValid s) → IsValid (flush s)
unfolding flush
flush-IsValid s v c =
    ground (arith, IsSending-IsValid s, continue_flush-IsValid (record s { sending = true }))

press-IsSending :
    (s : LogSession)
    → length s.queue ≤ s.options.max_queue
    → 1 ≤ length s.queue
    → s.closed ≡ false
    → closes s.effects ≡ bit s.closed
    → IsSending (press s)
unfolding press
press-IsSending s h p k c = ground arith

-- Room for one line is made, and the line is added.
length-enqueue :
    (line : LogLine) (s : LogSession)
    → 1 ≤ s.options.max_queue
    → length s.queue ≤ s.options.max_queue
    → (1 ≤ length (enqueue line (make_room s)).queue)
      × (length (enqueue line (make_room s)).queue ≤ s.options.max_queue)
unfolding make_room
length-enqueue line s h k = ground (
  arith,
  length-append s.queue (line ∷ []),
  length-append (drop 1 s.queue) (line ∷ []),
  length-drop 1 s.queue,
)

flags-make_room :
    (s : LogSession)
    → ((make_room s).options ≡ s.options)
      × ((make_room s).closed ≡ s.closed)
      × ((make_room s).effects ≡ s.effects)
unfolding make_room
flags-make_room s = ground arith

closed-press : (s : LogSession) → (press s).closed ≡ s.closed
unfolding press
closed-press s = ground arith

push-IsValid :
    (line : LogLine) (s : LogSession) → IsSound s.options → IsValid s → IsValid (push line s)
unfolding push
push-IsValid line s o v =
    let t = enqueue line (make_room s) in
    ground (
      arith,
      flush-IsValid (press t),
      press-IsSending t,
      closed-press t,
      length-enqueue line s,
      flags-make_room s,
    )

close-IsSending : (s : LogSession) → IsValid s → IsSending (close s)
unfolding close
close-IsSending s v = ground arith

close-empty : (s : LogSession) → IsValid s → length (close s).queue ≡ 0
unfolding close
close-empty s v = ground arith

end-IsValid : (s : LogSession) → IsValid s → IsValid (end s)
unfolding end maybe_finish_ending close
end-IsValid s v = ground arith

timed_out-IsValid : (s : LogSession) → IsValid s → IsValid (timed_out s)
unfolding timed_out
timed_out-IsValid s v = ground (arith, finish-IsValid (close s), close-IsSending s, close-empty s)

acked-IsValid : (s : LogSession) → s.sending ≡ true → IsValid s → IsValid (acked s)
unfolding acked
acked-IsValid s h v = ground (arith, continue_flush-IsValid s, valid-IsSending s)

-- Every event of the event loop keeps the invariant.
pub step-IsValid : (e : Event) (s : LogSession) → IsSound s.options → IsValid s → IsValid (step e s)
unfolding step
step-IsValid (pushed line) s o v = push-IsValid line s o v
step-IsValid attached s o v = attach_source-IsValid s v
step-IsValid ended s o v = end-IsValid s v
step-IsValid cancelled s o v = close-IsValid s v
step-IsValid settled s o v = ground (arith, acked-IsValid s)
step-IsValid expired s o v = ground (arith, timed_out-IsValid s)

-- No operation changes the options.
module _ (s : LogSession) where
  options-close : (close s).options ≡ s.options
  unfolding close
  options-close = ground arith

  options-finish : (finish s).options ≡ s.options
  unfolding finish maybe_finish_ending close
  options-finish = ground arith

  options-send_batch : (send_batch s).options ≡ s.options
  unfolding send_batch relieve
  options-send_batch = ground arith

  options-continue_flush : (continue_flush s).options ≡ s.options
  unfolding continue_flush
  options-continue_flush = ground (arith, options-finish, options-send_batch)

options-flush : (s : LogSession) → (flush s).options ≡ s.options
unfolding flush
options-flush s = ground (arith, options-continue_flush (record s { sending = true }))

options-push : (line : LogLine) (s : LogSession) → (push line s).options ≡ s.options
unfolding push make_room press
options-push line s = ground (arith, options-flush (press (enqueue line (make_room s))))

pub options-step : (e : Event) (s : LogSession) → (step e s).options ≡ s.options
unfolding step
options-step (pushed line) s = options-push line s
options-step attached s = unfold attach_source in ground arith
options-step ended s = unfold end maybe_finish_ending close in ground arith
options-step cancelled s = options-close s
options-step settled s = unfold acked in ground (arith, options-continue_flush s)
options-step expired s =
    unfold timed_out in ground (arith, options-finish (close s), options-close s)

run_from-IsValid :
    (es : List Event) (s : LogSession) → IsSound s.options → IsValid s → IsValid (run es s)
unfolding run
run_from-IsValid [] s o v = v
run_from-IsValid (e ∷ es) s o v =
    run_from-IsValid es (step e s) (rw options-step o) (step-IsValid e s o v)

-- Whatever the events and their order, from a new session with sound options: the queue is within
-- its bound, a closed session holds nothing, a session with no batch in flight has nothing queued,
-- a paused source has lines waiting ahead of it, an ended session at rest is closed, and `onClose`
-- has run exactly once if the session is closed and not at all if it is open.
pub run-IsValid : (o : LogSessionOptions) (es : List Event) → IsSound o → IsValid (run es (new o))
run-IsValid o es h = run_from-IsValid es (new o) (unfold new in h) (new-IsValid o)
