-- ===== src/Actions/Guards.antt =====
-- When a restart reaches Docker, and what a refusal leaves.
use core_dashboard.Prelude.{
  String, ◌≡◌, ◌↔◌, true, false, Option, none, some, arith, Text, Option-cases, inl, inr,
}
use core_dashboard.Shared.Events.{ServiceState}
use core_dashboard.Shared.Values.{is_name}
use core_dashboard.Actions.{
  ActionsService, Refusal, is_protected, check_rate_limit, record_restart, Attempt, attempt_limited,
  attempt, restart,
}

-- The conditions for a restart, in the order of the code.
pub record IsAllowed (list : Option String) (name : Text) (managed : Option ServiceState)
    (a : Attempt) (s : ActionsService) : Type 0 where
  pub named : is_name 127 name ≡ true
  pub found :
      (state : ServiceState) × (managed ≡ some state) × (is_protected list state.project ≡ false)
  pub passed : check_rate_limit a.container a.checked_at s ≡ none

module _ (list : Option String) (name : Text) (managed : Option ServiceState) (a : Attempt)
    (s : ActionsService) where
  restart-IsAllowed : (restart list name managed a s).0 ≡ none → IsAllowed list name managed a s
  unfolding restart attempt attempt_limited
  restart-IsAllowed e = elim (Option-cases managed) [
    | inl gone ↦ absurd (ground arith)
    | inr (state, found) ↦ record {
      named = ground arith;
      found = (state, found, ground arith);
      passed = ground arith;
    }
  ]

  IsAllowed-restart : IsAllowed list name managed a s → (restart list name managed a s).0 ≡ none
  unfolding restart attempt attempt_limited
  IsAllowed-restart h = let (state, found, free) = h.found in ground (arith, h.named, h.passed)

  -- A restart request reaches Docker exactly when the name is well formed, the container is in the
  -- inventory and of no protected project, and both rate limits let it pass; it is then recorded.
  -- A request that is refused leaves the state as it was.
  pub restart_iff :
      ((restart list name managed a s).0 ≡ none ↔ IsAllowed list name managed a s)
      × (((restart list name managed a s).0 ≡ none)
          → (restart list name managed a s).1 ≡ record_restart a.container a.recorded_at s)
      × ((refusal : Refusal)
          → (restart list name managed a s).0 ≡ some refusal
          → (restart list name managed a s).1 ≡ s)
  unfolding restart attempt attempt_limited
  restart_iff =
      ((restart-IsAllowed, IsAllowed-restart), λ e. ground arith, λ refusal e. ground arith)
