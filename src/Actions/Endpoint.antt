-- ===== src/Actions/Endpoint.antt =====
-- apps/api/src/actions/actions.controller.ts behind auth.guard.ts: a request for a restart, from
-- its header to the service.
pub mod Access
mod Tests
use core_dashboard.Prelude.{String, Option, none, some, Text}
use core_dashboard.Shared.Auth.{AuthUser, Role, operator}
use core_dashboard.Shared.Events.{ServiceState}
use core_dashboard.Auth.{
  JwtLibrary, Environment, Decision, allowed, unauthorized, forbidden, can_activate,
}
use core_dashboard.Actions.{ActionsService, Refusal, Attempt, restart}

-- 401, 403, what the service refuses, or a restart for a user.
pub data Response : Type 0 where
  not_signed_in no_rank : Response
  refused : Refusal → Response
  restarting : AuthUser → Response

-- `@RequireRole("operator")`.
abbrev pub min_role : Option Role
min_role = some operator

abbrev pub respond : AuthUser → Option Refusal × ActionsService → Response × ActionsService
respond user (none, s) = (restarting user, s)
respond user (some refusal, s) = (refused refusal, s)

module _ (list : Option String) (name : Text) (managed : Option ServiceState) (a : Attempt)
    (s : ActionsService) where
  abbrev pub pass : Decision → Response × ActionsService
  pass unauthorized = (not_signed_in, s)
  pass forbidden = (no_rank, s)
  pass (allowed user) = respond user (restart list name managed a s)

  unfoldable pub restart_request :
      JwtLibrary → Environment → Option Text → Response × ActionsService
  restart_request jwt env header = pass (can_activate jwt env header min_role)
