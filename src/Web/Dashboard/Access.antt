-- ===== src/Web/Dashboard/Access.antt =====
-- What the page offers to whom.
use core_dashboard.Prelude.{
  ◌≡◌, ◌≢◌, ◌↔◌, refl, subst, inl, inr, String, true, false, Option, none, some,
}
use core_dashboard.Shared.Auth.{operator, admin, has_role}
use core_dashboard.Shared.Fetch.{is_set}
use core_dashboard.Web.View.{inside}
use core_dashboard.Web.View.Offers.{
  Offers, Offers-when, Offers-left, Offers-right, Offers-inside, Offers-inside_own, inside-lacks,
}
use core_dashboard.Web.ContainerPanel as Panel
use core_dashboard.Web.SecurityLog as SecurityLog
use core_dashboard.Web.Dashboard.{Dashboard, Action, on_panel, on_security}
use core_dashboard.Web.Dashboard.Page.{Environment, header_view, panel_view, view}
use core_dashboard.Web.Dashboard.Parts.{
  restart_view-Offers, panel-Offers, Offers-panel, header-lacks, cards-lacks, ecosystem-Offers,
  view-Offers,
}

-- The container whose panel is rendered.
abbrev pub IsShown : Dashboard → Type 0
IsShown s = (container : String) × (s.selected ≡ some container) × (is_set (some container) ≡ true)

module _ {V : Type 0} (env : Environment V) (s : Dashboard) where
  panel_view-Offers :
      (selected : Option String)
      → Offers (on_panel Panel.click_restart) (panel_view env selected s)
      → ((container : String) × (selected ≡ some container) × (is_set (some container) ≡ true))
        × (has_role env.user operator ≡ true)
        × (Panel.is_pending s.panel.restart.status ≡ false)
  panel_view-Offers none o = absurd o
  panel_view-Offers (some container) o =
      let (named, p) =
        Offers-when (on_panel Panel.click_restart) (is_set (some container))
          (inside on_panel (Panel.view env.user container env.rows env.lines s.panel)) o in
      let (a, e, q) =
        Offers-inside on_panel (Panel.view env.user container env.rows env.lines s.panel) p in
      let same : a ≡ Panel.click_restart = cc in
      let shown : Offers Panel.click_restart (Panel.restart_view env.user s.panel.restart) =
        panel-Offers env.rows env.lines s.panel env.user container (
          subst (λ b. Offers b (Panel.view env.user container env.rows env.lines s.panel)) same
            q) in
      let (role, free) = (restart_view-Offers env.user s.panel.restart).0 shown in
      ((container, refl, named), role, free)

  panel_view-lacks :
      (a : Action) (selected : Option String)
      → ((p : Panel.Action) → on_panel p ≢ a)
      → ¬ Offers a (panel_view env selected s)
  panel_view-lacks a none other o = o
  panel_view-lacks a (some container) other o =
      inside-lacks on_panel (Panel.view env.user container env.rows env.lines s.panel) other
        (Offers-when a (is_set (some container)) _ o).1

  Offers-panel_view :
      (container : String)
      → is_set (some container) ≡ true
      → Offers Panel.click_restart (Panel.restart_view env.user s.panel.restart)
      → Offers (on_panel Panel.click_restart) (panel_view env (some container) s)
  Offers-panel_view container set o = rw set (
      Offers-inside_own on_panel Panel.click_restart
        (Panel.view env.user container env.rows env.lines s.panel)
        (Offers-panel env.rows env.lines s.panel env.user container o))

  -- The page lets its user click the restart button exactly if it shows the panel of a container, the
  -- user has the operator's role, and the button's status is not pending.
  pub Offers-restart : Offers (on_panel Panel.click_restart) (view env s) ↔ (
      IsShown s
      × (has_role env.user operator ≡ true)
      × (Panel.is_pending s.panel.restart.status ≡ false))
  unfolding view
  Offers-restart = (
    λ o. elim (view-Offers env s (on_panel Panel.click_restart) o) [
      | inl p ↦ absurd (header-lacks env s (on_panel Panel.click_restart) (λ l e. cc) (λ m e. cc) p)
      | inr (inl p) ↦ panel_view-Offers s.selected p
      | inr (inr (inl p)) ↦ absurd (cards-lacks env s (on_panel Panel.click_restart) (λ n e. cc) p)
      | inr (inr (inr p)) ↦ absurd (
          inside-lacks on_security _ (λ b e. cc)
            (ecosystem-Offers env s (on_panel Panel.click_restart) (λ b e. cc) p))
    ],
    λ h. Offers-right (on_panel Panel.click_restart) (header_view env s) _ (
        Offers-left (on_panel Panel.click_restart) (panel_view env s.selected s) _ (
          rw (h.0.1) (
            Offers-panel_view h.0.0 h.0.2
              ((restart_view-Offers env.user s.panel.restart).1 (h.1, h.2))))),
  )

  -- What the page offers of the security log, it offers to administrators only.
  pub Offers-security :
      (action : SecurityLog.Action)
      → Offers (on_security action) (view env s)
      → has_role env.user admin ≡ true
  unfolding SecurityLog.view
  Offers-security action o = elim (view-Offers env s (on_security action) o) [
    | inl p ↦ absurd (header-lacks env s (on_security action) (λ l e. cc) (λ m e. cc) p)
    | inr (inl p) ↦ absurd (panel_view-lacks (on_security action) s.selected (λ b e. cc) p)
    | inr (inr (inl p)) ↦ absurd (cards-lacks env s (on_security action) (λ n e. cc) p)
    | inr (inr (inr p)) ↦
        let (a, e, q) =
          Offers-inside on_security (SecurityLog.view env.user env.events s.security)
            (ecosystem-Offers env s (on_security action) (λ b e. cc) p) in
        (Offers-when a (has_role env.user admin) (SecurityLog.panel_view env.events s.security) q).0
  ]
