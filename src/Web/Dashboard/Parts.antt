-- ===== src/Web/Dashboard/Parts.antt =====
-- Which part of the page (apps/web/src/components/live-dashboard.tsx) offers an action.
use core_dashboard.Prelude.{
  ◌≡◌, ◌≢◌, ◌↔◌, refl, ◌⊎◌, inl, inr, String, true, false, Option, none, some, List, Bool-cases,
}
use core_dashboard.Shared.Auth.{AuthUser, operator, has_role}
use core_dashboard.Web.View.{inside}
use core_dashboard.Web.View.Offers.{Offers, Offers-append, Offers-left, inside-lacks, each-lacks}
use core_dashboard.Web.View.Silence.{IsSilent-lacks}
use core_dashboard.Shared.Events.{ServiceState}
use core_dashboard.Web.RestartButton.{RestartButton}
use core_dashboard.Web.Query.{Query}
use core_dashboard.Web.Charts.{ChartRow}
use core_dashboard.Web.ContainerLogs.{ContainerLogs}
use core_dashboard.Web.AlertsFeed as AlertsFeed
use core_dashboard.Web.Dashboard.Shown.{
  badges-IsSilent, card-IsSilent, viewer-IsSilent, queue-IsSilent,
}
use core_dashboard.Web.ContainerPanel as Panel
use core_dashboard.Web.SecurityLog as SecurityLog
use core_dashboard.Web.MetricsPanel as Metrics
use core_dashboard.Web.Badges as Badges
use core_dashboard.Web.Locale.{Locale}
use core_dashboard.Web.UserMenu as Menu
use core_dashboard.Web.ServiceCard as ServiceCard
use core_dashboard.Web.QueueStatus as QueueStatus
use core_dashboard.Web.Dashboard.{
  Dashboard, Action, on_menu, on_security, on_alerts, pick_locale, select, is_selected,
}
use core_dashboard.Web.Dashboard.Page.{
  Environment, header_view, panel_view, cards_view, ecosystem_view, view,
}

title_view-lacks :
    (message : Option String) → ¬ Offers Panel.click_restart (Panel.title_view message)
title_view-lacks none o = o
title_view-lacks (some words) (inl o) = o
title_view-lacks (some words) (inr o) = o

-- The button is there for an operator, and enabled unless a request waits.
pub restart_view-Offers :
    (user : AuthUser) (r : RestartButton)
    → Offers Panel.click_restart (Panel.restart_view user r)
      ↔ ((has_role user operator ≡ true) × (Panel.is_pending r.status ≡ false))
unfolding Panel.restart_view
restart_view-Offers user r = elim (Bool-cases (has_role user operator)) [
  | inl e ↦ rw e (
    λ o. elim o [ inl p ↦ (refl, p.0) | inr p ↦ absurd (title_view-lacks r.message p) ],
    λ h. inl (h.1, refl),
  )
  | inr e ↦ rw e (λ o. absurd o, λ h. cc)
]

module _ {V : Type 0} (query : Query (List (ChartRow V))) (lines : ContainerLogs)
    (s : Panel.ContainerPanel) where
  body_view-lacks :
      (tab : Panel.PanelTab) (action : Panel.Action)
      → ((a : Metrics.Action) → Panel.on_chart a ≢ action)
      → ¬ Offers action (Panel.body_view tab query lines s)
  body_view-lacks Panel.metrics action other o =
      inside-lacks Panel.on_chart (Metrics.view query s.charts) other o
  body_view-lacks Panel.logs action other o =
      IsSilent-lacks action (viewer-IsSilent Panel.Action s.pinned lines) o

  pub panel-Offers :
      (user : AuthUser) (container : String)
      → Offers Panel.click_restart (Panel.view user container query lines s)
      → Offers Panel.click_restart (Panel.restart_view user s.restart)
  unfolding Panel.view
  panel-Offers user container (inl o) = absurd o
  panel-Offers user container (inr (inl (d, e))) = cc
  panel-Offers user container (inr (inr (inl (d, e)))) = cc
  panel-Offers user container (inr (inr (inr o))) =
      elim (Offers-append Panel.click_restart (Panel.restart_view user s.restart) _ o) [
        | inl p ↦ p
        | inr (inl (d, e)) ↦ cc
        | inr (inr p) ↦ absurd (body_view-lacks s.tab Panel.click_restart (λ a e. cc) p)
      ]

  pub Offers-panel :
      (user : AuthUser) (container : String)
      → Offers Panel.click_restart (Panel.restart_view user s.restart)
      → Offers Panel.click_restart (Panel.view user container query lines s)
  unfolding Panel.view
  Offers-panel user container o =
      inr (inr (inr (Offers-left Panel.click_restart (Panel.restart_view user s.restart) _ o)))

module _ {V : Type 0} (env : Environment V) (s : Dashboard) where
  pub header-lacks :
      (a : Action)
      → ((l : Locale) → pick_locale l ≢ a)
      → ((m : Menu.Action) → on_menu m ≢ a)
      → ¬ Offers a (header_view env s)
  header-lacks a no_locale no_menu (inl o) = o
  header-lacks a no_locale no_menu (inr (inl o)) = o
  header-lacks a no_locale no_menu (inr (inr o)) =
      elim (Offers-append a (inside pick_locale (Badges.switcher_view env.switching env.locale)) _
        o) [
          | inl p ↦ inside-lacks pick_locale _ no_locale p
          | inr p ↦ elim (Offers-append a (inside on_menu (Menu.view env.user s.menu)) _ p) [
            | inl q ↦ inside-lacks on_menu _ no_menu q
            | inr q ↦ IsSilent-lacks a (badges-IsSilent Action env.dependencies env.status) q
          ]
        ]

  card-lacks :
      (a : Action) (state : ServiceState)
      → ((name : String) → select name ≢ a)
      → ¬ Offers a
          (ServiceCard.view state env.now (is_selected s.selected state.name) (select state.name))
  unfolding ServiceCard.view
  card-lacks a state other (inl (d, e)) = other state.name e
  card-lacks a state other (inr o) = IsSilent-lacks a (card-IsSilent Action state env.now) o

  pub cards-lacks :
      (a : Action) → ((name : String) → select name ≢ a) → ¬ Offers a (cards_view env s)
  cards-lacks a other o = each-lacks a _ env.services (λ state. card-lacks a state other) o

  pub ecosystem-Offers :
      (a : Action)
      → ((b : AlertsFeed.Action) → on_alerts b ≢ a)
      → Offers a (ecosystem_view env s)
      → Offers a (inside on_security (SecurityLog.view env.user env.events s.security))
  ecosystem-Offers a other o = elim (Offers-append a (QueueStatus.view env.user env.queue) _ o) [
    | inl p ↦ absurd (IsSilent-lacks a (queue-IsSilent Action env.user env.queue) p)
    | inr p ↦
        elim (Offers-append a (inside on_security (SecurityLog.view env.user env.events s.security))
          _ p) [ inl q ↦ q | inr q ↦ absurd (inside-lacks on_alerts _ other q) ]
  ]

  -- Which part of the page offers an action.
  pub view-Offers :
      (a : Action)
      → Offers a (view env s)
      → Offers a (header_view env s)
        ⊎ (Offers a (panel_view env s.selected s)
            ⊎ (Offers a (cards_view env s) ⊎ Offers a (ecosystem_view env s)))
  unfolding view
  view-Offers a o = elim (Offers-append a (header_view env s) _ o) [
    | inl p ↦ inl p
    | inr p ↦ elim (Offers-append a (panel_view env s.selected s) _ p) [
      | inl q ↦ inr (inl q)
      | inr q ↦ inr (inr (Offers-append a (cards_view env s) _ q))
    ]
  ]
