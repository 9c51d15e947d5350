-- ===== src/Alerts/Cooldown.antt =====
-- How far apart two alerts of one kind for one container are.
use core_dashboard.Prelude.{
  ℕ, ◌+◌, ◌≤◌, String, ◌≡◌, sym, subst, Bool, Option, none, some, List, [], ◌∷◌, ◌++◌, arith, All,
  Option-cases, eq_cases, inl, inr, All-append,
}
use core_dashboard.Shared.Events.{ServiceUpdate}
use core_dashboard.Shared.Maps.{lookup, insert, lookup-insert, lookup-insert_ne}
use core_dashboard.Alerts.{
  AlertsService, Alert, Effect, ask, send, cooldown_key, cooldown_ms, Event, updated, fired,
  answered, destroyed, maybe_alert_answered, is_on_cooldown, handle_update, timer_fired, answer,
  pick, step, run, alert_restarted, maybe_alert, started, schedule_die_alert, on_module_destroy,
}

-- The messages for a key come at least the cooldown after `last`.
abbrev pub IsAfter : String → ℕ → Effect → Type 0
IsAfter key last (ask a) = Unit
IsAfter key last (send a now) = cooldown_key a ≡ key → last + cooldown_ms ≤ now

-- Every message is followed, for its key, only by messages that come the cooldown later.
abbrev pub IsSpaced : List Effect → Type 0
IsSpaced [] = Unit
IsSpaced (ask a ∷ effects) = IsSpaced effects
IsSpaced (send a now ∷ effects) = All (IsAfter (cooldown_key a) now) effects × IsSpaced effects

IsAfter-weaken :
    (key : String) (last later : ℕ) (effects : List Effect)
    → last ≤ later
    → All (IsAfter key later) effects
    → All (IsAfter key last) effects
IsAfter-weaken key last later [] h b = tt
IsAfter-weaken key last later (ask a ∷ effects) h (_, b) =
    (tt, IsAfter-weaken key last later effects h b)
IsAfter-weaken key last later (send a now ∷ effects) h (c, b) =
    (λ e. omega (arith, c e), IsAfter-weaken key last later effects h b)

-- The last message for a key, if it is known to be not before `last`.
abbrev IsSince : ℕ → Option ℕ → Type 0
IsSince last none = 1 ≤ 0
IsSince last (some t) = last ≤ t

abbrev Remembers : String → ℕ → AlertsService → Type 0
Remembers key last s = IsSince last (lookup key s.last_alert_at)

-- What a step keeps, for a key with a message at `last`.
abbrev Keeps : String → ℕ → AlertsService × List Effect → Type 0
Keeps key last r = All (IsAfter key last) r.1 × Remembers key last r.0

module _ (key : String) (last : ℕ) where
  answered-Keeps :
      (a : Alert) (setting : Option Bool) (now : ℕ) (s : AlertsService)
      → Remembers key last s
      → Keeps key last (maybe_alert_answered a setting now s)
  unfolding maybe_alert_answered is_on_cooldown
  answered-Keeps a setting now s h = elim (eq_cases (cooldown_key a) key) [
    | inl same ↦ (
      ground (arith, lookup-insert key now s.last_alert_at),
      ground (arith, lookup-insert key now s.last_alert_at),
    )
    | inr other ↦ (
      ground arith,
      ground (arith, lookup-insert_ne key (cooldown_key a) now s.last_alert_at other),
    )
  ]

  step-Keeps : (e : Event) (s : AlertsService) → Remembers key last s → Keeps key last (step e s)
  unfolding step handle_update timer_fired on_module_destroy alert_restarted started
      schedule_die_alert maybe_alert
  step-Keeps (updated update) s h = ground arith
  step-Keeps (fired name) s h = ground arith
  step-Keeps (answered n setting now) s h = elim (Option-cases (pick n s.waiting)) [
    | inl gone ↦ ground arith
    | inr ((a, others), found) ↦
        subst (λ p. Keeps key last (answer p setting now s)) (sym found)
          (answered-Keeps a setting now (record s { waiting = others }) h)
  ]
  step-Keeps destroyed s h = (tt, h)

run-Keeps :
    (key : String) (last : ℕ) (events : List Event) (s : AlertsService)
    → Remembers key last s
    → All (IsAfter key last) (run events s).1
unfolding run
run-Keeps key last [] s h = tt
run-Keeps key last (e ∷ events) s h =
    let (after, kept) = step-Keeps key last e s h in
    All-append (IsAfter key last) (step e s).1 (run events (step e s).0).1 after
      (run-Keeps key last events (step e s).0 kept)

-- No message is sent.
abbrev pub IsQuiet : List Effect → Type 0
IsQuiet [] = Unit
IsQuiet (ask a ∷ effects) = IsQuiet effects
IsQuiet (send a now ∷ effects) = 1 ≤ 0

IsQuiet-append :
    (effects more : List Effect) → IsQuiet effects → IsSpaced more → IsSpaced (effects ++ more)
IsQuiet-append [] more q h = h
IsQuiet-append (ask a ∷ effects) more q h = IsQuiet-append effects more q h
IsQuiet-append (send a now ∷ effects) more q h = absurd (ground arith)

pub update-IsQuiet :
    (update : ServiceUpdate) (s : AlertsService) → IsQuiet (handle_update update s).1
unfolding handle_update alert_restarted started maybe_alert
update-IsQuiet update s = ground arith

pub timer-IsQuiet : (name : String) (s : AlertsService) → IsQuiet (timer_fired name s).1
unfolding timer_fired maybe_alert
timer-IsQuiet name s = ground arith

module _ (events : List Event) (spaced : (s : AlertsService) → IsSpaced (run events s).1) where
  -- The messages after one step, when those of the later steps are spaced.
  abbrev Follows : AlertsService × List Effect → Type 0
  Follows r = IsSpaced (r.1 ++ (run events r.0).1)

  answered-Follows :
      (a : Alert) (setting : Option Bool) (now : ℕ) (s : AlertsService)
      → Follows (maybe_alert_answered a setting now s)
  unfolding maybe_alert_answered
  answered-Follows a setting now s =
      let t = record s { last_alert_at = insert (cooldown_key a) now s.last_alert_at } in
      let known = lookup-insert (cooldown_key a) now s.last_alert_at in
      let after =
        run-Keeps (cooldown_key a) now events t (subst (IsSince now) (sym known) (omega arith)) in
      ground (arith, after, spaced t, spaced s)

  step-Follows : (e : Event) (s : AlertsService) → Follows (step e s)
  unfolding step
  step-Follows (updated update) s =
      IsQuiet-append (handle_update update s).1 _ (update-IsQuiet update s)
        (spaced (handle_update update s).0)
  step-Follows (fired name) s =
      IsQuiet-append (timer_fired name s).1 _ (timer-IsQuiet name s) (spaced (timer_fired name s).0)
  step-Follows (answered n setting now) s = elim (Option-cases (pick n s.waiting)) [
    | inl gone ↦ subst (λ p. Follows (answer p setting now s)) (sym gone) (spaced s)
    | inr ((a, others), found) ↦
        subst (λ p. Follows (answer p setting now s)) (sym found)
          (answered-Follows a setting now (record s { waiting = others }))
  ]
  step-Follows destroyed s = spaced (on_module_destroy s)

-- Whatever arrives, and in whatever order the timers fire and the database answers, two messages
-- to the bot of one kind for one container are at least a minute apart by the clock, which may
-- also go back.
pub run-IsSpaced : (events : List Event) (s : AlertsService) → IsSpaced (run events s).1
unfolding run
run-IsSpaced [] s = tt
run-IsSpaced (e ∷ events) s = step-Follows events (run-IsSpaced events) e s
