-- ===== src/Web/Session/Steps.antt =====
-- What can happen to a session in the browser, and the states that it can come to.
use core_dashboard.Prelude.{String, ◌≡◌, Bool, Option, none, some, List, ◌∷◌, ◌++◌}
use core_dashboard.Shared.Auth.{AuthUser}
use core_dashboard.Web.Session.{
  Session, Origin, sign_in, Task, asked, reading, LoginResponse, pair, TokenPair, blank, mount,
  replied, read_user, logout, tick, login, verify_two_factor,
}

-- A task waits, and the session without it.
pub record Pending (task : Task) (s without : Session) : Type 0 where
  pub before : List Task
  pub after : List Task
  pub waits : s.tasks ≡ before ++ task ∷ after
  pub left : without ≡ record s { tasks = before ++ after }

-- What may come back for each call: only `login` is answered by a challenge.
abbrev pub Fits : Origin → LoginResponse → Type 0
Fits sign_in response = Unit
Fits origin response = (tokens : TokenPair) × (response ≡ pair tokens)

module _ (available : Bool) where
  pub data Step (s t : Session) : Type 0 where
    ticked : (token : String) → s.access_token ≡ some token → t ≡ tick s → Step s t
    signed_in : t ≡ login s → Step s t
    code_sent : t ≡ verify_two_factor s → Step s t
    logged_out : t ≡ logout available s → Step s t
    refused :
        (origin : Origin) (without : Session)
        → Pending (asked origin) s without
        → t ≡ replied available origin none without
        → Step s t
    answered :
        (origin : Origin) (without : Session) (response : LoginResponse)
        → Fits origin response
        → Pending (asked origin) s without
        → t ≡ replied available origin (some response) without
        → Step s t
    read :
        (origin : Origin) (without : Session) (user : Option AuthUser)
        → Pending (reading origin) s without
        → t ≡ read_user available origin user without
        → Step s t

  -- The states of a page that is opened with the given storage.
  pub data Reach (stored : Option String) : Session → Type 0 where
    here : Reach stored (mount available (blank stored))
    next : {s t : Session} → Reach stored s → Step s t → Reach stored t
