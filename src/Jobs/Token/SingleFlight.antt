-- ===== src/Jobs/Token/SingleFlight.antt =====
-- How many requests for a token are made, and how often a call is answered.
use core_dashboard.Prelude.{
  ℕ, ◌+◌, ◌≤◌, String, ◌≡◌, refl, ap, sym, Option, none, some, List, [], ◌∷◌, ◌++◌, arith, nat_beq,
  if◌then◌else◌,
}
use core_dashboard.Jobs.Token.{
  TaskforgeClient, PendingToken, Granted, init, Effect, fetch_token, return, Event, called,
  answered, get_access_token, wait_for, settle, token_answered, return_all, step, run,
}

-- The requests among the effects.
abbrev pub fetches : List Effect → ℕ
fetches [] = 0
fetches (fetch_token ∷ effects) = 1 + fetches effects
fetches (return caller result ∷ effects) = fetches effects

abbrev pub in_flight : Option PendingToken → ℕ
in_flight none = 0
in_flight (some p) = 1

abbrev pub answers : List Event → ℕ
answers [] = 0
answers (called caller now ∷ events) = answers events
answers (answered answer ∷ events) = 1 + answers events

-- How often a call returns, waits, and is made.
abbrev pub is_it : ℕ → ℕ → ℕ
is_it caller other = if nat_beq caller other then 1 else 0

abbrev pub returns : ℕ → List Effect → ℕ
returns caller [] = 0
returns caller (fetch_token ∷ effects) = returns caller effects
returns caller (return other result ∷ effects) = is_it caller other + returns caller effects

abbrev pub occurs : ℕ → List ℕ → ℕ
occurs caller [] = 0
occurs caller (other ∷ callers) = is_it caller other + occurs caller callers

abbrev pub waits : ℕ → Option PendingToken → ℕ
waits caller none = 0
waits caller (some p) = occurs caller p.waiting

abbrev pub calls : ℕ → List Event → ℕ
calls caller [] = 0
calls caller (called other now ∷ events) = is_it caller other + calls caller events
calls caller (answered answer ∷ events) = calls caller events

fetches-append : (a b : List Effect) → fetches (a ++ b) ≡ fetches a + fetches b
fetches-append [] b = omega arith
fetches-append (fetch_token ∷ a) b = omega (arith, fetches-append a b)
fetches-append (return caller result ∷ a) b = fetches-append a b

returns-append :
    (caller : ℕ) (a b : List Effect) → returns caller (a ++ b) ≡ returns caller a + returns caller b
returns-append caller [] b = omega arith
returns-append caller (fetch_token ∷ a) b = returns-append caller a b
returns-append caller (return other result ∷ a) b = omega (arith, returns-append caller a b)

occurs-append :
    (caller : ℕ) (a b : List ℕ) → occurs caller (a ++ b) ≡ occurs caller a + occurs caller b
occurs-append caller [] b = omega arith
occurs-append caller (other ∷ a) b = omega (arith, occurs-append caller a b)

fetches-return_all :
    (callers : List ℕ) (result : Option String) → fetches (return_all callers result) ≡ 0
fetches-return_all [] result = refl
fetches-return_all (caller ∷ callers) result = fetches-return_all callers result

returns-return_all :
    (caller : ℕ) (callers : List ℕ) (result : Option String)
    → returns caller (return_all callers result) ≡ occurs caller callers
returns-return_all caller [] result = refl
returns-return_all caller (other ∷ callers) result =
    omega (arith, returns-return_all caller callers result)

called-fetches :
    (caller now : ℕ) (s : TaskforgeClient)
    → fetches (get_access_token caller now s).1 + in_flight s.pending_token
      ≡ in_flight (get_access_token caller now s).0.pending_token
unfolding get_access_token
called-fetches caller now s = ground arith

settle-fetches :
    (p : Option PendingToken) (answer : Option Granted) (s : TaskforgeClient)
    → p ≡ s.pending_token
    → (fetches (settle p answer s).1 ≡ 0) × (in_flight (settle p answer s).0.pending_token ≡ 0)
settle-fetches none answer s e = (refl, ap in_flight (sym e))
settle-fetches (some p) none s e = (fetches-return_all p.waiting none, refl)
settle-fetches (some p) (some granted) s e =
    (fetches-return_all p.waiting (some granted.access_token), refl)

in_flight-le : (p : Option PendingToken) → in_flight p ≤ 1
in_flight-le none = omega arith
in_flight-le (some p) = omega arith

run-fetches :
    (events : List Event) (s : TaskforgeClient)
    → fetches (run events s).1 + in_flight s.pending_token ≤ 1 + answers events
unfolding run step token_answered
run-fetches [] s = omega (arith, in_flight-le s.pending_token)
run-fetches (called caller now ∷ events) s =
    let (t, effects) = get_access_token caller now s in
    omega (
      arith,
      fetches-append effects (run events t).1,
      called-fetches caller now s,
      run-fetches events t,
    )
run-fetches (answered answer ∷ events) s =
    let (t, effects) = settle s.pending_token answer s in
    let (none_made, none_left) = settle-fetches s.pending_token answer s refl in
    omega (
      arith,
      fetches-append effects (run events t).1,
      none_made,
      in_flight-le s.pending_token,
      run-fetches events t,
    )

wait_for-returns :
    (c caller now : ℕ) (p : Option PendingToken) (s : TaskforgeClient)
    → p ≡ s.pending_token
    → returns c (wait_for caller now p s).1 + waits c (wait_for caller now p s).0.pending_token
      ≡ is_it c caller + waits c s.pending_token
wait_for-returns c caller now none s e = omega (arith, ap (waits c) e)
wait_for-returns c caller now (some p) s e =
    omega (arith, ap (waits c) e, occurs-append c p.waiting (caller ∷ []))

called-returns :
    (c caller now : ℕ) (s : TaskforgeClient)
    → returns c (get_access_token caller now s).1
        + waits c (get_access_token caller now s).0.pending_token
      ≡ is_it c caller + waits c s.pending_token
unfolding get_access_token
called-returns c caller now s = ground (arith, wait_for-returns c caller now s.pending_token s refl)

settle-returns :
    (c : ℕ) (p : Option PendingToken) (answer : Option Granted) (s : TaskforgeClient)
    → p ≡ s.pending_token
    → returns c (settle p answer s).1 + waits c (settle p answer s).0.pending_token
      ≡ waits c s.pending_token
settle-returns c none answer s e = omega arith
settle-returns c (some p) none s e =
    omega (arith, ap (waits c) e, returns-return_all c p.waiting none)
settle-returns c (some p) (some granted) s e =
    omega (arith, ap (waits c) e, returns-return_all c p.waiting (some granted.access_token))

run-returns :
    (c : ℕ) (events : List Event) (s : TaskforgeClient)
    → returns c (run events s).1 + waits c (run events s).0.pending_token
      ≡ calls c events + waits c s.pending_token
unfolding run step token_answered
run-returns c [] s = refl
run-returns c (called caller now ∷ events) s =
    let (t, effects) = get_access_token caller now s in
    omega (
      arith,
      returns-append c effects (run events t).1,
      called-returns c caller now s,
      run-returns c events t,
    )
run-returns c (answered answer ∷ events) s =
    let (t, effects) = settle s.pending_token answer s in
    omega (
      arith,
      returns-append c effects (run events t).1,
      settle-returns c s.pending_token answer s refl,
      run-returns c events t,
    )

-- However the calls and the answers come, at most one request for a token is made for each answer
-- and one more, and every call either still waits or has returned, just once.
pub run-init :
    (events : List Event)
    → (fetches (run events init).1 ≤ 1 + answers events)
      × ((c : ℕ)
          → returns c (run events init).1 + waits c (run events init).0.pending_token
            ≡ calls c events)
run-init events =
    (omega (arith, run-fetches events init), λ c. omega (arith, run-returns c events init))
