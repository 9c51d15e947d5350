-- ===== src/Logs/Session/Accounting.antt =====
-- What becomes of each line, and the batches that are in flight.
use core_dashboard.Prelude.{
  ◌+◌, ◌≤◌, ◌≡◌, Bool, true, false, List, [], ◌∷◌, arith, length, length-append, length-drop,
  length-take, take, drop, ◌⊎◌, all, Bool-cases,
}
use core_dashboard.Logs.Session.Invariant.{options-step}
use core_dashboard.Shared.Events.{LogLine}
use core_dashboard.Logs.Session.{
  LogSessionOptions, LogSession, new, attach_source, close, maybe_finish_ending, end, relieve,
  send_batch, finish, continue_flush, flush, make_room, press, enqueue, push, acked, timed_out,
  Event, pushed, attached, ended, cancelled, settled, expired, step, run,
}
use core_dashboard.Logs.Session.Measures.{
  sent, reported, emits, bit, account, taken, accepted, answers, answered,
}

relieve_keeps :
    (s : LogSession)
    → (sent (relieve s).effects ≡ sent s.effects)
      × (reported (relieve s).effects ≡ reported s.effects)
      × (emits (relieve s).effects ≡ emits s.effects)
      × ((relieve s).dropped ≡ s.dropped)
      × ((relieve s).queue ≡ s.queue)
      × ((relieve s).closed ≡ s.closed)
      × ((relieve s).sending ≡ s.sending)
unfolding relieve
relieve_keeps s = ground arith

press_keeps :
    (s : LogSession)
    → (sent (press s).effects ≡ sent s.effects)
      × (reported (press s).effects ≡ reported s.effects)
      × (emits (press s).effects ≡ emits s.effects)
      × ((press s).dropped ≡ s.dropped)
      × ((press s).queue ≡ s.queue)
      × ((press s).closed ≡ s.closed)
      × ((press s).sending ≡ s.sending)
unfolding press
press_keeps s = ground arith

-- A batch moves lines from the queue, and the count of losses, into the effects.
account-send_batch : (s : LogSession) → account (send_batch s) ≡ account s
unfolding send_batch
account-send_batch s =
    let t = record s { queue = drop s.options.batch_size s.queue; dropped = 0 } in
    ground (
      arith,
      relieve_keeps t,
      length-append (sent s.effects) (take s.options.batch_size s.queue),
      length-take s.options.batch_size s.queue,
      length-drop s.options.batch_size s.queue,
    )

-- The loop's exit closes nothing but an empty session.
account-finish : (s : LogSession) → account (finish s) ≡ account s
unfolding finish maybe_finish_ending close
account-finish s = ground arith

account-continue_flush : (s : LogSession) → account (continue_flush s) ≡ account s
unfolding continue_flush
account-continue_flush s = ground (arith, account-send_batch s, account-finish s)

account-flush : (s : LogSession) → account (flush s) ≡ account s
unfolding flush
account-flush s = ground (arith, account-continue_flush (record s { sending = true }))

-- Dropping the oldest line to make room is counted.
account-make_room :
    (line : LogLine) (s : LogSession)
    → 1 ≤ s.options.max_queue
    → account (enqueue line (make_room s)) ≡ account s + 1
unfolding make_room
account-make_room line s h = ground (
  arith,
  length-append s.queue (line ∷ []),
  length-append (drop 1 s.queue) (line ∷ []),
  length-drop 1 s.queue,
)

account-push :
    (line : LogLine) (s : LogSession)
    → 1 ≤ s.options.max_queue
    → account (push line s) ≡ account s + length (taken (pushed line) s.closed)
unfolding push
account-push line s h =
    let t = enqueue line (make_room s) in
    ground (arith, account-flush (press t), press_keeps t, account-make_room line s)

-- Events that do not cut the session off.
abbrev pub is_gentle : Event → Bool
is_gentle cancelled = false
is_gentle expired = false
is_gentle _ = true

account-step :
    (e : Event) (s : LogSession)
    → 1 ≤ s.options.max_queue
    → (is_gentle e ≡ true) ⊎ ((step e s).closed ≡ false)
    → account (step e s) ≡ account s + length (taken e s.closed)
unfolding step
account-step (pushed line) s h k = account-push line s h
account-step attached s h k = unfold attach_source in ground arith
account-step ended s h k = unfold end maybe_finish_ending close in ground arith
account-step cancelled s h k = unfold close in ground arith
account-step settled s h k = unfold acked in ground (arith, account-continue_flush s)
account-step expired s h k = unfold timed_out finish maybe_finish_ending close in ground arith

-- A closed session stays closed.
closed-step : (e : Event) (s : LogSession) → s.closed ≡ true → (step e s).closed ≡ true
unfolding step
closed-step (pushed line) s h = unfold push in ground arith
closed-step attached s h = unfold attach_source in ground arith
closed-step ended s h = unfold end maybe_finish_ending close in ground arith
closed-step cancelled s h = unfold close in ground arith
closed-step settled s h =
    unfold acked continue_flush finish maybe_finish_ending close in ground arith
closed-step expired s h = unfold timed_out finish maybe_finish_ending close in ground arith

pub closed-run : (es : List Event) (s : LogSession) → s.closed ≡ true → (run es s).closed ≡ true
unfolding run
closed-run [] s h = h
closed-run (e ∷ es) s h = closed-run es (step e s) (closed-step e s h)

account-run :
    (es : List Event) (s : LogSession)
    → 1 ≤ s.options.max_queue
    → (all is_gentle es ≡ true) ⊎ ((run es s).closed ≡ false)
    → account (run es s) ≡ account s + length (accepted es s)
unfolding run
account-run [] s h k = omega arith
account-run (e ∷ es) s h k =
    let t = step e s in
    ground (
      arith,
      account-step e s h,
      account-run es t,
      options-step e s,
      closed-run es t,
      Bool-cases t.closed,
      length-append (taken e s.closed) (accepted es t),
    )

-- Whatever the events and their order: if the session is still open, or nothing has cut it off,
-- then every line that it took in while open has been emitted, is in the queue, or is counted as
-- lost, in a batch that was emitted or in the count that goes out with the next one.
pub account-run-new :
    (o : LogSessionOptions) (es : List Event)
    → 1 ≤ o.max_queue
    → (all is_gentle es ≡ true) ⊎ ((run es (new o)).closed ≡ false)
    → length (accepted es (new o))
      ≡ length (sent (run es (new o)).effects)
        + reported (run es (new o)).effects
        + (run es (new o)).dropped
        + length (run es (new o)).queue
account-run-new o es h k = unfold new in omega (arith, account-run es (new o) h k)

emits-continue_flush :
    (s : LogSession)
    → s.sending ≡ true
    → emits (continue_flush s).effects ≡ emits s.effects + bit (continue_flush s).sending
unfolding continue_flush send_batch finish maybe_finish_ending close
emits-continue_flush s h =
    ground
      (arith, relieve_keeps (record s { queue = drop s.options.batch_size s.queue; dropped = 0 }))

emits-flush :
    (s : LogSession)
    → emits (flush s).effects + bit s.sending ≡ emits s.effects + bit (flush s).sending
unfolding flush
emits-flush s = ground (arith, emits-continue_flush (record s { sending = true }))

flags-room :
    (s : LogSession) → ((make_room s).effects ≡ s.effects) × ((make_room s).sending ≡ s.sending)
unfolding make_room
flags-room s = ground arith

emits-push :
    (line : LogLine) (s : LogSession)
    → emits (push line s).effects + bit s.sending ≡ emits s.effects + bit (push line s).sending
unfolding push
emits-push line s =
    let t = enqueue line (make_room s) in
    ground (arith, emits-flush (press t), press_keeps t, flags-room s)

emits-step :
    (e : Event) (s : LogSession)
    → emits (step e s).effects + bit s.sending
      ≡ emits s.effects + answers e s.sending + bit (step e s).sending
unfolding step
emits-step (pushed line) s = ground (arith, emits-push line s)
emits-step attached s = unfold attach_source in ground arith
emits-step ended s = unfold end maybe_finish_ending close in ground arith
emits-step cancelled s = unfold close in ground arith
emits-step settled s = unfold acked in ground (arith, emits-continue_flush s)
emits-step expired s = unfold timed_out finish maybe_finish_ending close in ground arith

emits-run :
    (es : List Event) (s : LogSession)
    → emits (run es s).effects + bit s.sending
      ≡ emits s.effects + answered es s + bit (run es s).sending
unfolding run
emits-run [] s = omega arith
emits-run (e ∷ es) s = omega (arith, emits-step e s, emits-run es (step e s))

-- Whatever the events and their order, the batches emitted are those answered, by an ack or a
-- timeout, and one more exactly while the session is sending: there is never a second batch in
-- flight.
pub emits-run-new :
    (o : LogSessionOptions) (es : List Event)
    → emits (run es (new o)).effects ≡ answered es (new o) + bit (run es (new o)).sending
emits-run-new o es = unfold new in omega (arith, emits-run es (new o))
