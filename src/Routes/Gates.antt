-- ===== src/Routes/Gates.antt =====
-- The gates of the web's components beside those of the api.
use core_dashboard.Prelude.{
  ◌≡◌, ◌≢◌, ◌↔◌, ◌∙◌, refl, sym, ap, String, true, false, Option, none, some, codes, Bool-cases,
  inl, inr,
}
use core_dashboard.Shared.Auth.{AuthUser, Role, operator, admin, has_role}
use core_dashboard.Auth.{
  JwtLibrary, Environment, allowed, decide, authenticate, can_activate, after, refuse,
}
use core_dashboard.Web.Pager.{SecurityAuditPanel, query}
use core_dashboard.Web.QueueStatus.{enabled}
use core_dashboard.Web.Pager.Access.{header_of}
use core_dashboard.Web.RestartButton.{RestartButton}
use core_dashboard.Web.View.Offers.{Offers}
use core_dashboard.Web.ContainerPanel as Panel
use core_dashboard.Web.Dashboard.Parts.{restart_view-Offers}
use core_dashboard.Routes.{taskforge_status, security_audit, actions_containers, guarded}

refuse-lacks : {user : AuthUser} (sub : Option String) → ¬ (refuse sub ≡ allowed user)
refuse-lacks none e = cc
refuse-lacks (some sub) e = cc

decide-allowed :
    (least : Role) (user : AuthUser)
    → (has_role user least ≡ true) ↔ (decide (some least) user ≡ allowed user)
decide-allowed least user = elim (Bool-cases (has_role user least)) [
  | inl e ↦ rw e (λ h. refl, λ h. refl)
  | inr e ↦ rw e (λ h. cc, λ h. absurd (refuse-lacks user.sub h))
]

query-enabled :
    (user : AuthUser) (token : String) (s : SecurityAuditPanel)
    → (has_role user admin ≡ true) ↔ (query user (some token) s ≢ none)
unfolding query
query-enabled user token s = elim (Bool-cases (has_role user admin)) [
  | inl e ↦ rw e (λ h k. cc, λ h. refl)
  | inr e ↦ rw e (λ h. cc, λ h. absurd (h refl))
]

enabled-role :
    (user : AuthUser) (token : String)
    → (enabled user (some token) ≡ true) ↔ (has_role user operator ≡ true)
unfolding enabled
enabled-role user token = elim (Bool-cases (has_role user operator)) [
  | inl e ↦ rw e (λ h. refl, λ h. refl)
  | inr e ↦ rw e (λ h. cc, λ h. cc)
]

module _ (jwt : JwtLibrary) (env : Environment) (token : String) (user : AuthUser)
    (known : authenticate jwt env (some (codes token)) ≡ user) where
  guarded-decide :
      (least : Role)
      → can_activate jwt env (header_of token) (some least) ≡ decide (some least) user
  unfolding can_activate after
  guarded-decide least = ap (decide (some least)) known

  gate :
      (least : Role)
      → (has_role user least ≡ true)
        ↔ (can_activate jwt env (header_of token) (some least) ≡ allowed user)
  gate least = (
    λ h. guarded-decide least ∙ (decide-allowed least user).0 h,
    λ h. (decide-allowed least user).1 (sym (guarded-decide least) ∙ h),
  )

  pub guarded-admin :
      has_role user admin ≡ true → guarded jwt env (header_of token) security_audit ≡ allowed user
  unfolding guarded
  guarded-admin h = (gate admin).0 h

  -- For a user whom the api reads from the token of the session: the panel of the queue asks, the
  -- panel of the security log asks, and a restart button that does not show a request as pending
  -- can be clicked, exactly if the api lets that user pass to what they ask for.
  pub gates-agree :
      (s : SecurityAuditPanel) (button : RestartButton)
      → Panel.is_pending button.status ≡ false
      → ((enabled user (some token) ≡ true)
          ↔ (guarded jwt env (header_of token) taskforge_status ≡ allowed user))
        × ((query user (some token) s ≢ none)
            ↔ (guarded jwt env (header_of token) security_audit ≡ allowed user))
        × (Offers Panel.click_restart (Panel.restart_view user button)
            ↔ (guarded jwt env (header_of token) actions_containers ≡ allowed user))
  unfolding guarded
  gates-agree s button free = (
    (
      λ h. (gate operator).0 ((enabled-role user token).0 h),
      λ h. (enabled-role user token).1 ((gate operator).1 h),
    ),
    (
      λ h. (gate admin).0 ((query-enabled user token s).1 h),
      λ h. (query-enabled user token s).0 ((gate admin).1 h),
    ),
    (
      λ o. (gate operator).0 ((restart_view-Offers user button).0 o).0,
      λ h. (restart_view-Offers user button).1 ((gate operator).1 h, free),
    ),
  )
