-- ===== src/Alerts/Coalescing.antt =====
-- A `die` that a restart follows, and a `die` that nothing follows.
use core_dashboard.Prelude.{
  ℕ, ◌≤◌, String, ◌≡◌, ◌≢◌, refl, sym, subst, ◌∙◌, Bool, true, false, if◌then◌else◌, contains,
  string_equality, Option, none, some, List, [], ◌∷◌, arith, All, eq_cases, inl, inr, All-append,
}
use core_dashboard.Shared.Events.{ContainerLifecycleAction, ServiceUpdate, die, restart, start}
use core_dashboard.Shared.Maps.{
  lookup, add, remove, lookup-insert, lookup-insert_ne, lookup-remove, lookup-remove_ne,
}
use core_dashboard.Alerts.{
  AlertsService, Alert, down, restarted, Effect, ask, send, Event, updated, fired, answered,
  destroyed, maybe_alert_answered, handle, handle_update, timer_fired, fire, answer, pick, step,
  run, alert_restarted, maybe_alert, started, schedule_die_alert, on_module_destroy,
}

-- An event that neither is of the container nor ends the service.
abbrev pub IsElsewhere : String → Event → Type 0
IsElsewhere name (updated update) = update.state.name ≢ name
IsElsewhere name (fired other) = other ≢ name
IsElsewhere name (answered n setting now) = Unit
IsElsewhere name destroyed = 1 ≤ 0

abbrev pending : String → AlertsService → Option (Option ℕ)
pending name s = lookup name s.pending_die_alerts

module _ (name : String) where
  pending-answered :
      (a : Alert) (setting : Option Bool) (now : ℕ) (s : AlertsService)
      → pending name (maybe_alert_answered a setting now s).0 ≡ pending name s
  unfolding maybe_alert_answered
  pending-answered a setting now s = ground arith

  pending-answer :
      (p : Option (Alert × List Alert)) (setting : Option Bool) (now : ℕ) (s : AlertsService)
      → pending name (answer p setting now s).0 ≡ pending name s
  pending-answer none setting now s = refl
  pending-answer (some (a, others)) setting now s =
      pending-answered a setting now (record s { waiting = others })

  pending-handle :
      (action : ContainerLifecycleAction) (update : ServiceUpdate) (s : AlertsService)
      → update.state.name ≢ name
      → pending name (handle action update s).0 ≡ pending name s
  unfolding schedule_die_alert alert_restarted maybe_alert started
  pending-handle die update s n =
      lookup-insert_ne name update.state.name update.exit_code _ n
      ∙ lookup-remove_ne name update.state.name s.pending_die_alerts n
  pending-handle action update s n =
      ground (arith, lookup-remove_ne name update.state.name s.pending_die_alerts n)

  pending-step :
      (e : Event) (s : AlertsService)
      → IsElsewhere name e
      → pending name (step e s).0 ≡ pending name s
  unfolding step handle_update timer_fired maybe_alert
  pending-step (updated update) s n = pending-handle update.action update s n
  pending-step (fired other) s n =
      ground (arith, lookup-remove_ne name other s.pending_die_alerts n)
  pending-step (answered n setting now) s _ = pending-answer (pick n s.waiting) setting now s
  pending-step destroyed s n = absurd (ground arith)

  pending-run :
      (events : List Event) (s : AlertsService)
      → All (IsElsewhere name) events
      → pending name (run events s).0 ≡ pending name s
  unfolding run
  pending-run [] s h = refl
  pending-run (e ∷ events) s (n, h) = pending-run events (step e s).0 h ∙ pending-step e s n

pending-die :
    (update : ServiceUpdate) (s : AlertsService)
    → update.action ≡ die
    → pending update.state.name (handle_update update s).0 ≡ some update.exit_code
unfolding handle_update schedule_die_alert
pending-die update s e =
    subst (λ action. pending update.state.name (handle action update s).0 ≡ some update.exit_code)
      (sym e) (lookup-insert update.state.name update.exit_code _)

-- A container that dies is asked about with the exit code of that `die` when its timer fires,
-- if only other containers have events between the two.
pub timer_fired-die :
    (update : ServiceUpdate) (events : List Event) (s : AlertsService)
    → update.action ≡ die
    → All (IsElsewhere update.state.name) events
    → (timer_fired update.state.name (run events (handle_update update s).0).0).1
      ≡ ask (down update.state.name update.exit_code) ∷ []
unfolding timer_fired maybe_alert
timer_fired-die update events s e h =
    let name = update.state.name in
    let t = (run events (handle_update update s).0).0 in
    subst (λ p. (fire name p t).1 ≡ ask (down name update.exit_code) ∷ [])
      (sym (pending-run name events (handle_update update s).0 h ∙ pending-die update s e)) refl

-- No new call of `maybeAlert` for the container being down.
abbrev pub IsNotDown : String → Effect → Type 0
IsNotDown name (ask (down other exit_code)) = other ≢ name
IsNotDown name (ask (restarted other)) = Unit
IsNotDown name (send a now) = Unit

-- The event is no `die` of the container.
abbrev pub IsNotDie : String → Event → Type 0
IsNotDie name (updated update) = update.action ≡ die → update.state.name ≢ name
IsNotDie name (fired other) = Unit
IsNotDie name (answered n setting now) = Unit
IsNotDie name destroyed = Unit

abbrev Calm : String → AlertsService × List Effect → Type 0
Calm name r = All (IsNotDown name) r.1 × (pending name r.0 ≡ none)

module _ (name : String) where
  lookup-removed :
      (other : String) (s : AlertsService)
      → pending name s ≡ none
      → lookup name (remove other s.pending_die_alerts) ≡ none
  lookup-removed other s e = elim (eq_cases other name) [
    | inl same ↦
        subst (λ k. lookup name (remove k s.pending_die_alerts) ≡ none) (sym same)
          (lookup-remove name s.pending_die_alerts)
    | inr n ↦ lookup-remove_ne name other s.pending_die_alerts n ∙ e
  ]

  alert_restarted-Calm :
      (other : String) (s : AlertsService)
      → pending name s ≡ none
      → Calm name (alert_restarted other s)
  unfolding alert_restarted maybe_alert
  alert_restarted-Calm other s e = ((tt, tt), lookup-removed other s e)

  if-Calm :
      (b : Bool) (r q : AlertsService × List Effect)
      → Calm name r
      → Calm name q
      → Calm name (if b then r else q)
  if-Calm true r q h k = h
  if-Calm false r q h k = k

  started-Calm :
      (other : String) (s : AlertsService) → pending name s ≡ none → Calm name (started other s)
  unfolding started
  started-Calm other s e =
      let t = record s { seen_containers = add other s.seen_containers } in
      if-Calm (contains other s.seen_containers) (alert_restarted other t) (t, [])
        (alert_restarted-Calm other t e) (tt, e)

  handle-Calm :
      (action : ContainerLifecycleAction) (update : ServiceUpdate) (s : AlertsService)
      → (action ≡ die → update.state.name ≢ name)
      → pending name s ≡ none
      → Calm name (handle action update s)
  unfolding schedule_die_alert
  handle-Calm die update s n e = (tt, pending-handle name die update s (n refl) ∙ e)
  handle-Calm restart update s n e = alert_restarted-Calm update.state.name s e
  handle-Calm start update s n e = started-Calm update.state.name s e
  handle-Calm _ update s n e = (tt, e)

  timer_fired-Calm :
      (other : String) (s : AlertsService) → pending name s ≡ none → Calm name (timer_fired other s)
  unfolding timer_fired maybe_alert
  timer_fired-Calm other s e = ground (arith, lookup-removed other s e)

  answer-Calm :
      (p : Option (Alert × List Alert)) (setting : Option Bool) (now : ℕ) (s : AlertsService)
      → pending name s ≡ none
      → Calm name (answer p setting now s)
  unfolding maybe_alert_answered
  answer-Calm p setting now s e = ground arith

  step-Calm :
      (e : Event) (s : AlertsService)
      → IsNotDie name e
      → pending name s ≡ none
      → Calm name (step e s)
  unfolding step handle_update on_module_destroy lookup
  step-Calm (updated update) s n e = handle-Calm update.action update s n e
  step-Calm (fired other) s n e = timer_fired-Calm other s e
  step-Calm (answered n setting now) s _ e = answer-Calm (pick n s.waiting) setting now s e
  step-Calm destroyed s n e = (tt, refl)

  run-Calm :
      (events : List Event) (s : AlertsService)
      → All (IsNotDie name) events
      → pending name s ≡ none
      → Calm name (run events s)
  unfolding run
  run-Calm [] s h e = (tt, e)
  run-Calm (v ∷ events) s (n, h) e =
      let (calm, kept) = step-Calm v s n e in
      let (calmer, kept_too) = run-Calm events (step v s).0 h kept in
      (All-append (IsNotDown name) _ _ calm calmer, kept_too)

-- Once a container has restarted, its pending alert on being down is gone: until it dies again,
-- no alert on it being down is begun, whatever timers fire.
pub run-restart :
    (update : ServiceUpdate) (events : List Event) (s : AlertsService)
    → update.action ≡ restart
    → All (IsNotDie update.state.name) events
    → All (IsNotDown update.state.name) (run events (handle_update update s).0).1
unfolding handle_update alert_restarted maybe_alert
run-restart update events s e h =
    let name = update.state.name in
    (run-Calm name events (handle_update update s).0 h (
      subst (λ action. pending name (handle action update s).0 ≡ none) (sym e)
        (lookup-remove name s.pending_die_alerts))).0
