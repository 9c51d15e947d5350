-- ===== src/Web/RestartButton/Clicks.antt =====
-- Two clicks for a request, and what a timer that is left over does.
use core_dashboard.Prelude.{
  ℕ, ◌+◌, ◌*◌, ◌≤◌, String, ◌≡◌, true, Option, some, List, [], ◌∷◌, arith, if◌then◌else◌,
}
use core_dashboard.Shared.Auth.{AuthUser, operator, has_role}
use core_dashboard.Shared.Fetch.{is_set}
use core_dashboard.Web.RestartButton.{
  RestartButton, new, Status, confirm, pending, Timer, reset, click, replied, pick, Event, clicked,
  answered, timer, step, run,
}

-- The clicks of users who have the button.
abbrev pub clicks : List Event → ℕ
clicks [] = 0
clicks (clicked user token ∷ events) = (if has_role user operator then 1 else 0) + clicks events
clicks (answered reply ∷ events) = clicks events
clicks (timer n ∷ events) = clicks events

abbrev pub asked : Status → ℕ
asked confirm = 1
asked _ = 0

clicks-cons :
    (e : Event) (events : List Event) → clicks (e ∷ events) ≡ clicks (e ∷ []) + clicks events
clicks-cons (clicked user token) events = omega arith
clicks-cons (answered reply) events = omega arith
clicks-cons (timer n) events = omega arith

pub step-clicks :
    (e : Event) (s : RestartButton)
    → 2 * (step e s).1 + asked (step e s).0.status ≤ clicks (e ∷ []) + asked s.status
unfolding step click replied
step-clicks (clicked user token) s = ground arith
step-clicks (answered reply) s = ground arith
step-clicks (timer n) s = ground arith

run-clicks_from :
    (events : List Event) (s : RestartButton)
    → 2 * (run events s).1 + asked (run events s).0.status ≤ clicks events + asked s.status
unfolding run
run-clicks_from [] s = omega arith
run-clicks_from (e ∷ events) s =
    let (t, made) = step e s in
    omega (arith, clicks-cons e events, step-clicks e s, run-clicks_from events t)

-- However the clicks, answers and timers come: a restart is requested at most once for every two
-- clicks of users who have the operator's role.
pub run-clicks : (events : List Event) → 2 * (run events new).1 ≤ clicks events
run-clicks events = omega (arith, run-clicks_from events new)

-- While a restart is under way, the timer that an earlier answer left resets the button, and two
-- more clicks request a second restart before the first is answered.
pub second_request :
    (user : AuthUser) (token : Option String) (n : ℕ) (others : List Timer) (s : RestartButton)
    → has_role user operator ≡ true
    → is_set token ≡ true
    → s.status ≡ pending
    → pick n s.timers ≡ some (reset, others)
    → ((run (timer n ∷ clicked user token ∷ clicked user token ∷ []) s).1 ≡ 1)
      × ((run (timer n ∷ clicked user token ∷ clicked user token ∷ []) s).0.in_flight
          ≡ s.in_flight + 1)
unfolding run step click
second_request user token n others s h k p e = (ground arith, ground arith)
