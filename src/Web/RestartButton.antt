-- ===== src/Web/RestartButton.antt =====
-- apps/web/src/components/restart-button.tsx: the button that asks twice, its timers, and the
-- requests that it makes. The timers are not cleared, so that several can wait at once.
pub mod Clicks
mod Tests
use core_dashboard.Prelude.{
  ℕ, zero, suc, ◌+◌, ◌-◌, String, Bool, true, false, Option, none, some, List, [], ◌∷◌, ◌++◌,
  if◌then◌else◌, leb,
}
use core_dashboard.Shared.Auth.{AuthUser, Role, operator, has_role}
use core_dashboard.Shared.Fetch.{is_set, is_ok, Answer, rejected, response}

abbrev pub confirm_timeout_ms : ℕ
confirm_timeout_ms = 3000

pub data Status : Type 0 where
  idle confirm pending done failed : Status

-- The timer of a first click, and the one of an answer.
pub data Timer : Type 0 where
  unconfirm reset : Timer

-- What the restart's request comes to: `ActionApiError` with its text, or another error.
pub data Reply : Type 0 where
  restarted : Reply
  api_error : String → Reply
  other_error : Reply

-- `restartContainer`, on what `fetch` gives and the text that the body or the status makes.
unfoldable pub restart_container {ℓ} : {B : Type ℓ} → (ℕ → Option B → String) → Answer B → Reply
restart_container message rejected = other_error
restart_container message (response status body) =
    if is_ok status then restarted else api_error (message status body)

pub record RestartButton : Type 0 where
  pub status : Status
  pub message : Option String
  pub timers : List Timer
  pub in_flight : ℕ

abbrev pub new : RestartButton
new = record { status = idle; message = none; timers = []; in_flight = 0 }

abbrev pub ask_again : RestartButton → RestartButton × ℕ
ask_again s = (record s { status = confirm; timers = s.timers ++ unconfirm ∷ [] }, 0)

-- The state after a click, and how many requests it makes. A pending button is disabled.
abbrev pub click_at : Status → Option String → RestartButton → RestartButton × ℕ
click_at confirm token s =
    if is_set token
    then (record s { status = pending; message = none; in_flight = s.in_flight + 1 }, 1)
    else (s, 0)
click_at pending token s = (s, 0)
click_at idle token s = ask_again s
click_at done token s = ask_again s
click_at failed token s = ask_again s

-- A user below operator has no button.
unfoldable pub click : AuthUser → Option String → RestartButton → RestartButton × ℕ
click user token s = if has_role user operator then click_at s.status token s else (s, 0)

abbrev pub message_of : Reply → Option String → Option String
message_of restarted before = before
message_of (api_error text) before = some text
message_of other_error before = some "genericError"

abbrev pub status_of : Reply → Status
status_of restarted = done
status_of _ = failed

unfoldable pub replied : Reply → RestartButton → RestartButton
replied reply s = record {
  status = status_of reply;
  message = message_of reply s.message;
  timers = s.timers ++ reset ∷ [];
  in_flight = s.in_flight - 1;
}

abbrev pub fire : Timer → Status → Status
fire unconfirm confirm = idle
fire unconfirm status = status
fire reset status = idle

-- The timer at a place among those that wait.
unfoldable pub pick : ℕ → List Timer → Option (Timer × List Timer)
pick n [] = none
pick zero (t ∷ timers) = some (t, timers)
pick (suc n) (t ∷ timers) = elim (pick n timers) [
  | none ↦ none
  | some (u, others) ↦ some (u, t ∷ others)
]

abbrev pub fired : Option (Timer × List Timer) → RestartButton → RestartButton
fired none s = s
fired (some (t, others)) s = record s { status = fire t s.status; timers = others }

pub data Event : Type 0 where
  clicked : AuthUser → Option String → Event
  answered : Reply → Event
  timer : ℕ → Event

-- An answer comes only to a request.
unfoldable pub step : Event → RestartButton → RestartButton × ℕ
step (clicked user token) s = click user token s
step (answered reply) s = if leb 1 s.in_flight then (replied reply s, 0) else (s, 0)
step (timer n) s = (fired (pick n s.timers) s, 0)

-- The requests are counted.
unfoldable pub run : List Event → RestartButton → RestartButton × ℕ
run [] s = (s, 0)
run (e ∷ events) s = let (t, made) = step e s in let (u, more) = run events t in (u, made + more)
