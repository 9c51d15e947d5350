-- ===== src/Web/Session/Invariant.antt =====
-- What holds of every state that a session can come to.
use core_dashboard.Prelude.{
  ℕ, ◌+◌, String, if◌then◌else◌, ◌≡◌, refl, sym, ap, subst, Bool, true, false, Option, none, some,
  List, [], ◌∷◌, ◌++◌, arith,
}
use core_dashboard.Shared.Auth.{AuthUser}
use core_dashboard.Web.Session.{
  Session, Origin, restore, renew, sign_in, verify, Task, asked, reading, LoginResponse, pair,
  challenge, TokenPair, blank, begin, settle, fail, mount, replied, read_user, logout, tick, login,
  verify_two_factor, apply_session, clear_session,
}
use core_dashboard.Shared.Fetch.{is_set}
use core_dashboard.Web.Session.Steps.{
  Step, Reach, Pending, Fits, ticked, signed_in, code_sent, logged_out, refused, answered, read,
  here, next,
}

-- The tasks of the restoring that still wait.
abbrev pub is_restoring : Task → ℕ
is_restoring (asked restore) = 1
is_restoring (reading restore) = 1
is_restoring _ = 0

abbrev pub restoring : List Task → ℕ
restoring [] = 0
restoring (task ∷ tasks) = is_restoring task + restoring tasks

abbrev pub one_if : Bool → ℕ
one_if true = 1
one_if false = 0

restoring-append : (a b : List Task) → restoring (a ++ b) ≡ restoring a + restoring b
restoring-append [] b = omega arith
restoring-append (task ∷ a) b = omega (arith, restoring-append a b)

-- The page is ready exactly when no restoring waits; the two tokens come and go together; and
-- where the storage works, it holds the refresh token that the page would use. `taken` counts the
-- restoring that a step has taken out and not finished.
pub record IsCoherent (available : Bool) (taken : ℕ) (s : Session) : Type 0 where
  pub starting : taken + restoring s.tasks + one_if s.ready ≡ 1
  pub paired : (s.access_token ≡ none) → (s.refresh_token ≡ none)
  pub unpaired : (s.refresh_token ≡ none) → (s.access_token ≡ none)
  pub kept :
      available ≡ true → (token : String) → s.refresh_token ≡ some token → s.stored ≡ some token

module _ (available : Bool) where
  Pending-IsCoherent :
      (task : Task) (s without : Session)
      → Pending task s without
      → IsCoherent available 0 s
      → IsCoherent available (is_restoring task) without
  Pending-IsCoherent task s without p c =
      subst (IsCoherent available (is_restoring task)) (sym p.left) (record {
        starting = omega (
          arith,
          ap restoring p.waits,
          restoring-append p.before (task ∷ p.after),
          restoring-append p.before p.after,
          c.starting,
        );
        paired = c.paired;
        unpaired = c.unpaired;
        kept = c.kept;
      })

  begin-IsCoherent :
      (task : Task) (s : Session)
      → is_restoring task ≡ 0
      → IsCoherent available 0 s
      → IsCoherent available 0 (begin task s)
  begin-IsCoherent task s e c = record {
    starting = omega (arith, restoring-append s.tasks (task ∷ []), c.starting);
    paired = c.paired;
    unpaired = c.unpaired;
    kept = c.kept;
  }

  if-IsCoherent :
      (b : Bool) (s t : Session)
      → IsCoherent available 0 s
      → IsCoherent available 0 t
      → IsCoherent available 0 (if b then s else t)
  if-IsCoherent true s t c d = c
  if-IsCoherent false s t c d = d

  apply_session-IsCoherent :
      (origin : Origin) (tokens : TokenPair) (s : Session)
      → IsCoherent available (is_restoring (asked origin)) s
      → IsCoherent available 0 (apply_session available origin tokens s)
  unfolding apply_session
  apply_session-IsCoherent origin tokens s c = record {
    starting = ground (arith, restoring-append s.tasks (reading origin ∷ []), c.starting);
    paired = λ e. absurd (ground arith);
    unpaired = λ e. absurd (ground arith);
    kept = λ a token e. ground arith;
  }

  clear_session-IsCoherent :
      (taken : ℕ) (s : Session)
      → IsCoherent available taken s
      → IsCoherent available taken (clear_session available s)
  unfolding clear_session
  clear_session-IsCoherent taken s c = record {
    starting = c.starting;
    paired = λ _. refl;
    unpaired = λ _. refl;
    kept = λ a token e. absurd (ground arith);
  }

  settle-IsCoherent :
      (origin : Origin) (s : Session)
      → IsCoherent available (is_restoring (asked origin)) s
      → IsCoherent available 0 (settle origin s)
  settle-IsCoherent restore s c = record {
    starting = ground (arith, c.starting);
    paired = c.paired;
    unpaired = c.unpaired;
    kept = c.kept;
  }
  settle-IsCoherent renew s c = c
  settle-IsCoherent sign_in s c = c
  settle-IsCoherent verify s c = c

  fail-IsCoherent :
      (origin : Origin) (s : Session)
      → IsCoherent available (is_restoring (asked origin)) s
      → IsCoherent available 0 (fail available origin s)
  fail-IsCoherent restore s c = settle-IsCoherent restore _ (clear_session-IsCoherent 1 s c)
  fail-IsCoherent renew s c = clear_session-IsCoherent 0 s c
  fail-IsCoherent sign_in s c = c
  fail-IsCoherent verify s c = c

  replied-IsCoherent :
      (origin : Origin) (response : LoginResponse) (s : Session)
      → Fits origin response
      → IsCoherent available (is_restoring (asked origin)) s
      → IsCoherent available 0 (replied available origin (some response) s)
  unfolding replied
  replied-IsCoherent origin (pair tokens) s f c = apply_session-IsCoherent origin tokens s c
  replied-IsCoherent sign_in (challenge token) s f c = c
  replied-IsCoherent restore (challenge token) s f c = absurd (ground arith)
  replied-IsCoherent renew (challenge token) s f c = c
  replied-IsCoherent verify (challenge token) s f c = c

  read_user-IsCoherent :
      (origin : Origin) (user : Option AuthUser) (s : Session)
      → IsCoherent available (is_restoring (asked origin)) s
      → IsCoherent available 0 (read_user available origin user s)
  unfolding read_user
  read_user-IsCoherent origin none s c = fail-IsCoherent origin s c
  read_user-IsCoherent origin (some user) s c =
      settle-IsCoherent origin (record s { user = user })
        (record { starting = c.starting; paired = c.paired; unpaired = c.unpaired; kept = c.kept })

  restoring_same : (origin : Origin) → is_restoring (reading origin) ≡ is_restoring (asked origin)
  restoring_same restore = refl
  restoring_same renew = refl
  restoring_same sign_in = refl
  restoring_same verify = refl

  Step-IsCoherent :
      {s t : Session} → Step available s t → IsCoherent available 0 s → IsCoherent available 0 t
  unfolding tick login verify_two_factor logout replied
  Step-IsCoherent {s} (ticked token _ e) c =
      subst (IsCoherent available 0) (sym e)
        (if-IsCoherent (is_set s.refresh_token) _ _ (begin-IsCoherent (asked renew) s refl c) c)
  Step-IsCoherent {s} (signed_in e) c =
      subst (IsCoherent available 0) (sym e) (begin-IsCoherent (asked sign_in) s refl c)
  Step-IsCoherent {s} (code_sent e) c =
      subst (IsCoherent available 0) (sym e) (begin-IsCoherent (asked verify) s refl c)
  Step-IsCoherent {s} (logged_out e) c =
      subst (IsCoherent available 0) (sym e) (clear_session-IsCoherent 0 s c)
  Step-IsCoherent {s} (refused origin without p e) c =
      subst (IsCoherent available 0) (sym e)
        (fail-IsCoherent origin without (Pending-IsCoherent (asked origin) s without p c))
  Step-IsCoherent {s} (answered origin without response f p e) c =
      subst (IsCoherent available 0) (sym e) (
        replied-IsCoherent origin response without f
          (Pending-IsCoherent (asked origin) s without p c))
  Step-IsCoherent {s} (read origin without user p e) c = subst (IsCoherent available 0) (sym e) (
      read_user-IsCoherent origin user without (
        subst (λ n. IsCoherent available n without) (restoring_same origin)
          (Pending-IsCoherent (reading origin) s without p c)))

  mount-IsCoherent :
      (stored : Option String) → IsCoherent available 0 (mount available (blank stored))
  unfolding mount
  mount-IsCoherent stored =
      if-IsCoherent (is_set (if available then stored else none)) _ _
        (record {
          starting = omega arith;
          paired = λ _. refl;
          unpaired = λ _. refl;
          kept = λ a token e. absurd (ground arith);
        })
        (record {
          starting = omega arith;
          paired = λ _. refl;
          unpaired = λ _. refl;
          kept = λ a token e. absurd (ground arith);
        })

-- In every state that the page can come to, whatever the order of the answers: it is ready
-- exactly when no restoring waits, and one restoring at most does; it has an access token exactly
-- when it has a refresh token; and where the storage works, a reload would find that token.
pub Reach-IsCoherent :
    (available : Bool) (stored : Option String) {s : Session}
    → Reach available stored s
    → IsCoherent available 0 s
Reach-IsCoherent available stored here = mount-IsCoherent available stored
Reach-IsCoherent available stored (next r st) =
    Step-IsCoherent available st (Reach-IsCoherent available stored r)
