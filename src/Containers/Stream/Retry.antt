-- ===== src/Containers/Stream/Retry.antt =====
-- What is left of the subscription after the service has stopped.
use core_dashboard.Prelude.{
  ◌≡◌, refl, true, false, List, [], ◌∷◌, arith, Text, All, All-append, ◌≤◌,
}
use core_dashboard.Containers.Stream.{
  EventStream, Effect, get_events, set_timer, clear_timer, destroy_stream, line, Event, opened,
  data_event, step, run, subscribe, schedule_retry, subscribed_ok, timer_fired, data_came,
  on_module_destroy, handled, on_data,
}

-- Neither a subscription is asked for nor a timer set.
abbrev pub IsIdle : Effect → Type 0
IsIdle get_events = 1 ≤ 0
IsIdle set_timer = 1 ≤ 0
IsIdle clear_timer = Unit
IsIdle destroy_stream = Unit
IsIdle (line text) = Unit

handled-IsIdle : (lines : List Text) → All IsIdle (handled lines)
handled-IsIdle [] = tt
handled-IsIdle (text ∷ lines) = (tt, handled-IsIdle lines)

-- Stopped, and no timer runs.
abbrev pub IsStopped : EventStream → Type 0
IsStopped s = (s.stopped ≡ true) × (s.retry_timer ≡ false)

step-IsStopped :
    (e : Event) (s : EventStream) → IsStopped s → All IsIdle (step e s).1 × IsStopped (step e s).0
unfolding step subscribed_ok schedule_retry timer_fired on_module_destroy data_came
step-IsStopped (data_event chunk) s h = (handled-IsIdle (on_data chunk s.buffer).0, h)
step-IsStopped e s h = ground arith

run-IsStopped : (events : List Event) (s : EventStream) → IsStopped s → All IsIdle (run events s).1
unfolding run
run-IsStopped [] s h = tt
run-IsStopped (e ∷ events) s h =
    let (idle, stopped) = step-IsStopped e s h in
    All-append IsIdle _ _ idle (run-IsStopped events (step e s).0 stopped)

-- After the module is destroyed no timer is set and Docker is not asked again, whatever the
-- streams and the timer do.
pub run-destroyed :
    (events : List Event) (s : EventStream) → All IsIdle (run events (on_module_destroy s).0).1
unfolding on_module_destroy
run-destroyed events s = run-IsStopped events (on_module_destroy s).0 (refl, refl)

-- A subscription that is lost is asked for again by the timer, unless the service has stopped.
timer_fired-schedule_retry :
    (s : EventStream) → s.stopped ≡ false → (timer_fired (schedule_retry s).0).1 ≡ get_events ∷ []
unfolding timer_fired schedule_retry subscribe
timer_fired-schedule_retry s h = ground arith

-- A subscription that Docker answers after the stop stays open: nothing destroys it.
opened-destroyed :
    (s : EventStream)
    → ((run (opened ∷ []) (on_module_destroy s).0).0.subscribed ≡ true)
      × ((run (opened ∷ []) (on_module_destroy s).0).1 ≡ [])
unfolding run step subscribed_ok
opened-destroyed s = (refl, refl)
