-- ===== src/Actions/Endpoint/Access.antt =====
-- Who can restart what.
use core_dashboard.Prelude.{String, ◌≤◌, ◌≡◌, ◌≢◌, refl, ap, Option, none, some, ◌++◌, arith, Text}
use core_dashboard.Shared.Auth.{AuthUser, operator, rank}
use core_dashboard.Shared.Events.{ServiceState}
use core_dashboard.Auth.{
  JwtLibrary, Environment, Decision, allowed, unauthorized, forbidden, can_activate, bearer,
}
use core_dashboard.Auth.Guards.{IsVerified, can_activate-allowed}
use core_dashboard.Actions.{ActionsService, Refusal, Attempt, restart}
use core_dashboard.Actions.Guards.{IsAllowed, restart_iff}
use core_dashboard.Actions.Endpoint.{restarting, min_role, respond, pass, restart_request}

module _ (list : Option String) (name : Text) (managed : Option ServiceState) (a : Attempt)
    (s : ActionsService) where
  respond-restarting :
      (user other : AuthUser) (r : Option Refusal × ActionsService)
      → (respond user r).0 ≡ restarting other
      → (user ≡ other) × (r.0 ≡ none)
  respond-restarting user other (none, t) e = (ground arith, refl)
  respond-restarting user other (some refusal, t) e = absurd (ground arith)

  pass-restarting :
      (d : Decision) (user : AuthUser)
      → (pass list name managed a s d).0 ≡ restarting user
      → (d ≡ allowed user) × ((restart list name managed a s).0 ≡ none)
  pass-restarting unauthorized user e = absurd (ground arith)
  pass-restarting forbidden user e = absurd (ground arith)
  pass-restarting (allowed other) user e =
      let (same, free) = respond-restarting other user (restart list name managed a s) e in
      (ap allowed same, free)

  respond-kept :
      (user : AuthUser) (r : Option Refusal × ActionsService)
      → ((refusal : Refusal) → r.0 ≡ some refusal → r.1 ≡ s)
      → ((other : AuthUser) → (respond user r).0 ≢ restarting other)
      → (respond user r).1 ≡ s
  respond-kept user (none, t) keeps n = absurd (n user refl)
  respond-kept user (some refusal, t) keeps n = keeps refusal refl

  pass-kept :
      (d : Decision)
      → ((user : AuthUser) → (pass list name managed a s d).0 ≢ restarting user)
      → (pass list name managed a s d).1 ≡ s
  pass-kept unauthorized n = refl
  pass-kept forbidden n = refl
  pass-kept (allowed user) n =
      respond-kept user (restart list name managed a s) (restart_iff list name managed a s).2 n

  -- A request restarts a container only if its header is `Bearer ` and a token that the library
  -- verified for a user whose claims give at least the role of an operator, and the name, the
  -- inventory, the protections and both rate limits allow it.
  pub restart_request-restarting :
      (jwt : JwtLibrary) (env : Environment) (header : Option Text) (user : AuthUser)
      → (restart_request list name managed a s jwt env header).0 ≡ restarting user
      → ((token : Text) × (header ≡ some (bearer ++ token))
          × IsVerified jwt env token user
          × (rank operator ≤ rank user.role))
        × IsAllowed list name managed a s
  unfolding restart_request
  restart_request-restarting jwt env header user e =
      let (passed, free) = pass-restarting (can_activate jwt env header min_role) user e in
      (
        can_activate-allowed jwt env header operator user (λ e. ground arith) passed,
        (restart_iff list name managed a s).0.0 free,
      )

  -- A request that restarts nothing leaves the state of the limits as it was.
  pub restart_request-kept :
      (jwt : JwtLibrary) (env : Environment) (header : Option Text)
      → ((user : AuthUser)
          → (restart_request list name managed a s jwt env header).0 ≢ restarting user)
      → (restart_request list name managed a s jwt env header).1 ≡ s
  unfolding restart_request
  restart_request-kept jwt env header = pass-kept (can_activate jwt env header min_role)
