-- ===== src/Jobs/Token.antt =====
-- `getAccessToken` and `fetchAccessToken` of apps/api/src/jobs/taskforge-client.service.ts: one
-- cached token, and one request for it at a time. The answer to the request comes later than the
-- calls that wait for it, by an event of its own.
pub mod SingleFlight
use core_dashboard.Prelude.{
  ℕ, ◌+◌, ◌-◌, ◌*◌, String, Bool, true, false, Option, none, some, List, [], ◌∷◌, ◌++◌, ltb,
  if◌then◌else◌,
}

abbrev pub token_refresh_margin_ms : ℕ
token_refresh_margin_ms = 30000

pub record CachedToken : Type 0 where
  pub access_token : String
  pub expires_at : ℕ

-- `pendingToken`: when its request was made, and the calls that wait for it, by their number.
pub record PendingToken : Type 0 where
  pub now : ℕ
  pub waiting : List ℕ

pub record TaskforgeClient : Type 0 where
  pub cached_token : Option CachedToken
  pub pending_token : Option PendingToken

abbrev pub init : TaskforgeClient
init = record { cached_token = none; pending_token = none }

-- A request for a token, and a call that returns a token or throws.
pub data Effect : Type 0 where
  fetch_token : Effect
  return : ℕ → Option String → Effect

abbrev pub is_fresh : ℕ → CachedToken → Bool
is_fresh now token = ltb token_refresh_margin_ms (token.expires_at - now)

-- `this.pendingToken ??= ...`, and the `await` of it.
abbrev pub wait_for : ℕ → ℕ → Option PendingToken → TaskforgeClient → TaskforgeClient × List Effect
wait_for caller now none s = (
  record s { pending_token = some (record { now = now; waiting = caller ∷ [] }) },
  fetch_token ∷ [],
)
wait_for caller now (some p) s =
    (record s { pending_token = some (record p { waiting = p.waiting ++ caller ∷ [] }) }, [])

abbrev pub get_cached : ℕ → ℕ → Option CachedToken → TaskforgeClient → TaskforgeClient × List Effect
get_cached caller now none s = wait_for caller now s.pending_token s
get_cached caller now (some token) s =
    if is_fresh now token
    then (s, return caller (some token.access_token) ∷ [])
    else wait_for caller now s.pending_token s

unfoldable pub get_access_token : ℕ → ℕ → TaskforgeClient → TaskforgeClient × List Effect
get_access_token caller now s = get_cached caller now s.cached_token s

-- The token and the seconds that it is good for, or a failure of the request: the variables that
-- are not set, a status that is not good, and a body that is no JSON are such failures.
pub record Granted : Type 0 where
  pub access_token : String
  pub expires_in : ℕ

abbrev pub return_all : List ℕ → Option String → List Effect
return_all [] result = []
return_all (caller ∷ callers) result = return caller result ∷ return_all callers result

abbrev pub store : ℕ → Granted → CachedToken
store now granted = record {
  access_token = granted.access_token;
  expires_at = now + granted.expires_in * 1000;
}

abbrev pub settle :
    Option PendingToken → Option Granted → TaskforgeClient → TaskforgeClient × List Effect
settle none answer s = (s, [])
settle (some p) none s = (record s { pending_token = none }, return_all p.waiting none)
settle (some p) (some granted) s = (
  record { cached_token = some (store p.now granted); pending_token = none },
  return_all p.waiting (some granted.access_token),
)

unfoldable pub token_answered : Option Granted → TaskforgeClient → TaskforgeClient × List Effect
token_answered answer s = settle s.pending_token answer s

pub data Event : Type 0 where
  called : ℕ → ℕ → Event
  answered : Option Granted → Event

unfoldable pub step : Event → TaskforgeClient → TaskforgeClient × List Effect
step (called caller now) s = get_access_token caller now s
step (answered answer) s = token_answered answer s

unfoldable pub run : List Event → TaskforgeClient → TaskforgeClient × List Effect
run [] s = (s, [])
run (e ∷ events) s =
    let (t, effects) = step e s in let (u, more) = run events t in (u, effects ++ more)
