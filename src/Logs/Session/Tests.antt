-- ===== src/Logs/Session/Tests.antt =====
-- The theorems on sessions, at concrete sessions.
use core_dashboard.Prelude.{
  String, ◌+◌, ◌≡◌, refl, false, List, [], ◌∷◌, ◌++◌, arith, length, codes, replicate, inl,
  IsSubsequence,
}
use core_dashboard.Shared.Events.{LogLine, stdout}
use core_dashboard.Logs.Session.{
  LogSessionOptions, LogSession, new, attach_source, close, maybe_finish_ending, end, relieve,
  send_batch, finish, continue_flush, flush, make_room, press, push, acked, timed_out, Event,
  pushed, attached, ended, settled, step, run,
}
use core_dashboard.Logs.Session.Measures.{sent, reported, emits, bit, accepted, answered}
use core_dashboard.Logs.Session.Invariant.{IsValid, run-IsValid}
use core_dashboard.Logs.Session.Accounting.{account-run-new, emits-run-new}
use core_dashboard.Logs.Session.Order.{run-IsSubsequence}
use core_dashboard.Logs.Session.Drain.{HasSent, run-ended}

-- Opens the operations for the tests.
operations : Unit {0}
unfolding new attach_source close maybe_finish_ending end relieve send_batch finish continue_flush
    flush make_room press push acked timed_out step run
operations = tt

abbrev small : LogSessionOptions
small = record {
  container = "web";
  batch_size = 2;
  max_queue = 3;
  high_water = 2;
  low_water = 1;
  ack_timeout_ms = 10;
}

abbrev line : String → LogLine
line s = record { ts = codes "t"; source = stdout; text = codes s }

-- The client does not answer the first batch while four more lines arrive: one is lost.
abbrev busy_day : List Event
busy_day =
    attached
    ∷ pushed (line "a")
    ∷ pushed (line "b")
    ∷ pushed (line "c")
    ∷ pushed (line "d")
    ∷ pushed (line "e")
    ∷ settled
    ∷ []

busy_day_outcome :
    (length (run busy_day (new small)).queue ≡ 1)
    × (reported (run busy_day (new small)).effects ≡ 1)
    × (length (sent (run busy_day (new small)).effects) ≡ 3)
    × ((run busy_day (new small)).closed ≡ false)
unfolding operations
busy_day_outcome = (refl, refl, refl, refl)

run-IsValid_example : IsValid (run busy_day (new small))
run-IsValid_example = run-IsValid small busy_day (omega arith)

account-run-new_example :
    length (accepted busy_day (new small))
    ≡ length (sent (run busy_day (new small)).effects)
      + reported (run busy_day (new small)).effects
      + (run busy_day (new small)).dropped
      + length (run busy_day (new small)).queue
account-run-new_example = account-run-new small busy_day (omega arith) (inl refl)

emits-run-new_example :
    emits (run busy_day (new small)).effects
    ≡ answered busy_day (new small) + bit (run busy_day (new small)).sending
emits-run-new_example = emits-run-new small busy_day

run-IsSubsequence_example :
    IsSubsequence
      (sent (run busy_day (new small)).effects ++ (run busy_day (new small)).queue)
      (accepted busy_day (new small))
run-IsSubsequence_example = run-IsSubsequence small busy_day

abbrev after_busy_day : LogSession
after_busy_day = run busy_day (new small)

run-ended_example :
    HasSent
      (sent after_busy_day.effects ++ after_busy_day.queue)
      (run (ended ∷ replicate 2 settled) after_busy_day)
unfolding operations
run-ended_example =
    run-ended after_busy_day 2 (run-IsValid small busy_day (omega arith)) (omega arith) refl refl
      (omega arith)
