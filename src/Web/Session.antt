-- ===== src/Web/Session.antt =====
-- apps/web/src/lib/auth: the session of the browser (auth-provider.tsx), its storage
-- (token-storage.ts) and the reading of the answers (api.ts). Each `await` is a task that waits
-- for its answer, so that a step relation can take the answers in any order. `available` tells
-- whether the browser's storage works.
pub mod Steps
pub mod Invariant
pub mod Races
mod Tests
use core_dashboard.Prelude.{
  ℕ, ◌*◌, String, Bool, true, false, not, Option, none, some, List, [], ◌∷◌, ◌++◌, if◌then◌else◌,
  ◌==◌, string_equality,
}
use core_dashboard.Shared.Auth.{AuthUser, anonymous}
use core_dashboard.Shared.Fetch.{is_set, is_ok, Answer, rejected, response}

abbrev pub refresh_interval_ms : ℕ
refresh_interval_ms = 12 * 60000

pub record TokenPair : Type 0 where
  pub access_token : String
  pub refresh_token : String

pub data LoginResponse : Type 0 where
  pair : TokenPair → LoginResponse
  challenge : String → LoginResponse

-- `post`: none where it throws. A body that is no JSON is read as `empty`.
unfoldable pub post {ℓ} : {B : Type ℓ} → B → Answer B → Option B
post empty rejected = none
post empty (response status none) = if is_ok status then some empty else none
post empty (response status (some body)) = if is_ok status then some body else none

-- `fetchMe`: a status that is not good is the anonymous user; a body that is no JSON throws.
unfoldable pub fetch_me : Answer AuthUser → Option AuthUser
fetch_me rejected = none
fetch_me (response status body) = if is_ok status then body else some anonymous

-- Which call a task belongs to: the restoring at the start, the renewal of the interval, `login`
-- and `verifyTwoFactor`.
pub data Origin : Type 0 where
  restore renew sign_in verify : Origin

-- What is waited for: the tokens, or `fetchMe` after them.
pub data Task : Type 0 where
  asked reading : Origin → Task

pub record Session : Type 0 where
  pub user : AuthUser
  pub access_token : Option String
  pub ready : Bool
  pub refresh_token : Option String
  pub stored : Option String
  pub tasks : List Task

-- Before the first effect runs.
abbrev pub blank : Option String → Session
blank stored = record {
  user = anonymous;
  access_token = none;
  ready = false;
  refresh_token = none;
  stored = stored;
  tasks = [];
}

abbrev pub begin : Task → Session → Session
begin task s = record s { tasks = s.tasks ++ task ∷ [] }

-- The end of the promise chain of the restoring; the others leave `ready` alone.
abbrev pub settle : Origin → Session → Session
settle restore s = record s { ready = true }
settle _ s = s

module _ (available : Bool) where
  abbrev pub load_refresh_token : Session → Option String
  load_refresh_token s = if available then s.stored else none

  abbrev pub save_refresh_token : String → Option String → Option String
  save_refresh_token token stored = if available then some token else stored

  abbrev pub clear_refresh_token : Option String → Option String
  clear_refresh_token stored = if available then none else stored

  -- `applySession` up to `fetchMe`.
  unfoldable pub apply_session : Origin → TokenPair → Session → Session
  apply_session origin tokens s = begin (reading origin) (record s {
    refresh_token = some tokens.refresh_token;
    stored = save_refresh_token tokens.refresh_token s.stored;
    access_token = some tokens.access_token;
  })

  unfoldable pub clear_session : Session → Session
  clear_session s = record s {
    refresh_token = none;
    stored = clear_refresh_token s.stored;
    access_token = none;
    user = anonymous;
  }

  -- A call that throws: the chains of the two refreshes clear the session, and `login` and
  -- `verifyTwoFactor` hand the error to their callers.
  abbrev pub fail : Origin → Session → Session
  fail restore s = settle restore (clear_session s)
  fail renew s = clear_session s
  fail sign_in s = s
  fail verify s = s

  -- The first effect.
  unfoldable pub mount : Session → Session
  mount s =
      if is_set (load_refresh_token s) then begin (asked restore) s else record s { ready = true }

  -- The answer to a request for tokens; a challenge is handed to the caller of `login`.
  unfoldable pub replied : Origin → Option LoginResponse → Session → Session
  replied origin none s = fail origin s
  replied origin (some (pair tokens)) s = apply_session origin tokens s
  replied origin (some (challenge token)) s = s

  unfoldable pub read_user : Origin → Option AuthUser → Session → Session
  read_user origin none s = fail origin s
  read_user origin (some user) s = settle origin (record s { user = user })

  -- Before the request to the api, whose answer is not looked at.
  unfoldable pub logout : Session → Session
  logout s = clear_session s

-- The interval's callback.
unfoldable pub tick : Session → Session
tick s = if is_set s.refresh_token then begin (asked renew) s else s

unfoldable pub login : Session → Session
login s = begin (asked sign_in) s

unfoldable pub verify_two_factor : Session → Session
verify_two_factor s = begin (asked verify) s
