-- ===== src/Web/Login/TwoFactor.antt =====
-- The second step: which codes are sent, and when the modal waits.
use core_dashboard.Prelude.{
  ◌≤◌, String, ◌≡◌, ◌⊎◌, inl, inr, refl, Bool, true, false, Option, none, some, List, [], ◌∷◌,
  arith, if◌then◌else◌, All, All-append,
}
use core_dashboard.Shared.Fetch.{is_set}
use core_dashboard.Web.Login.{
  LoginModal, Form, credentials, two_factor, returned, api_error, other_error, Request, login,
  verify_two_factor, new, on_submit, logged_in, verified, Event, submitted, login_answered,
  verify_answered, step, run, answer, submit_code, submit_form,
}

-- The challenges that the answers to `login` carry.
abbrev pub Challenges : String → List Event → Type 0
Challenges token [] = 1 ≤ 0
Challenges token (login_answered (returned (some given)) ∷ events) =
    (given ≡ token) ⊎ Challenges token events
Challenges token (event ∷ events) = Challenges token events

if-All :
    (b : Bool) (P : Request → Type 0) (x y : LoginModal × List Request)
    → All P x.1
    → All P y.1
    → All P (if b then x else y).1
if-All true P x y h k = h
if-All false P x y h k = k

-- A code goes out with the modal's challenge, or with one that came by these events.
abbrev pub IsGiven : Option String → List Event → Request → Type 0
IsGiven held events login = Unit
IsGiven held events (verify_two_factor token) = (held ≡ some token) ⊎ Challenges token events

Challenges-later :
    (token : String) (e : Event) (events : List Event)
    → Challenges token events
    → Challenges token (e ∷ events)
Challenges-later token submitted events h = h
Challenges-later token (verify_answered reply) events h = h
Challenges-later token (login_answered (returned none)) events h = h
Challenges-later token (login_answered (returned (some given))) events h = inr h
Challenges-later token (login_answered (api_error text)) events h = h
Challenges-later token (login_answered other_error) events h = h

challenge_after :
    (token given : String) (f : Form) (waiting : Bool) (s : LoginModal)
    → (if◌then◌else◌ {A = LoginModal × List Request} waiting
        (answer f (login_answered (returned (some given))) s, [])
        (s, [])).0.challenge_token
      ≡ some token
    → (s.challenge_token ≡ some token) ⊎ (given ≡ token)
unfolding logged_in
challenge_after token given credentials true s h = inr (ground arith)
challenge_after token given credentials false s h = inl h
challenge_after token given two_factor true s h = inl h
challenge_after token given two_factor false s h = inl h

submit_code-IsGiven :
    (held : Option String) (events : List Event) (s : LoginModal)
    → All (IsGiven held events) (submit_code held s).1
submit_code-IsGiven none events s = tt
submit_code-IsGiven (some token) events s = if-All (is_set (some token)) _ _ _ (inl refl, tt) tt

submit_form-IsGiven :
    (f : Form) (waiting : Bool) (events : List Event) (s : LoginModal)
    → All (IsGiven s.challenge_token events) (if waiting then (s, []) else submit_form f s).1
submit_form-IsGiven f true events s = tt
submit_form-IsGiven credentials false events s = (tt, tt)
submit_form-IsGiven two_factor false events s = submit_code-IsGiven s.challenge_token events s

-- The challenge after a step was there before, or came with the step.
step-challenge :
    (token : String) (e : Event) (events : List Event) (s : LoginModal)
    → (step e s).0.challenge_token ≡ some token
    → (s.challenge_token ≡ some token) ⊎ Challenges token (e ∷ events)
unfolding step on_submit logged_in verified
step-challenge token submitted events s h = inl (ground arith)
step-challenge token (verify_answered reply) events s h = inl (ground arith)
step-challenge token (login_answered (returned none)) events s h = inl (ground arith)
step-challenge token (login_answered (returned (some given))) events s h =
    elim (challenge_after token given s.form s.submitting s h) [
      | inl before ↦ inl before
      | inr same ↦ inr (inl same)
    ]
step-challenge token (login_answered (api_error text)) events s h = inl (ground arith)
step-challenge token (login_answered other_error) events s h = inl (ground arith)

step-IsGiven :
    (e : Event) (events : List Event) (s : LoginModal)
    → All (IsGiven s.challenge_token (e ∷ events)) (step e s).1
unfolding step on_submit
step-IsGiven submitted events s = submit_form-IsGiven s.form s.submitting (submitted ∷ events) s
step-IsGiven (login_answered reply) events s = ground arith
step-IsGiven (verify_answered reply) events s = ground arith

-- What is known after a step was known before it.
IsGiven-later :
    (e : Event) (events : List Event) (s : LoginModal) (requests : List Request)
    → All (IsGiven (step e s).0.challenge_token events) requests
    → All (IsGiven s.challenge_token (e ∷ events)) requests
IsGiven-later e events s [] h = tt
IsGiven-later e events s (login ∷ requests) (_, h) = (tt, IsGiven-later e events s requests h)
IsGiven-later e events s (verify_two_factor token ∷ requests) (inl now, h) =
    (step-challenge token e events s now, IsGiven-later e events s requests h)
IsGiven-later e events s (verify_two_factor token ∷ requests) (inr later, h) =
    (inr (Challenges-later token e events later), IsGiven-later e events s requests h)

run-IsGiven_from :
    (events : List Event) (s : LoginModal) → All (IsGiven s.challenge_token events) (run events s).1
unfolding run
run-IsGiven_from [] s = tt
run-IsGiven_from (e ∷ events) s =
    let (t, requests) = step e s in
    All-append (IsGiven s.challenge_token (e ∷ events)) requests (run events t).1
      (step-IsGiven e events s)
      (IsGiven-later e events s (run events t).1 (run-IsGiven_from events t))

-- A code is sent only with a challenge that an answer to the login carried.
pub run-IsGiven : (events : List Event) → All (IsGiven none events) (run events new).1
run-IsGiven events = run-IsGiven_from events new
