-- ===== src/Web/Dashboard/Page.antt =====
-- apps/web/src/components/live-dashboard.tsx: what the page renders. What the hooks of the session,
-- the connection and the queries give is an argument.
use core_dashboard.Prelude.{
  ℕ, String, Bool, true, false, Option, none, some, List, [], ◌∷◌, ◌++◌, if◌then◌else◌, filter,
  length, string_equality, ltb,
}
use core_dashboard.Shared.Auth.{AuthUser}
use core_dashboard.Shared.Fetch.{is_set}
use core_dashboard.Shared.Events.{ServiceState, ContainerStatus, running}
use core_dashboard.Web.View.{count, Label, literal, message, plain, muted, text, View, each, inside}
use core_dashboard.Web.Query.{Query}
use core_dashboard.Web.Charts.{ChartRow}
use core_dashboard.Web.ContainerLogs.{ContainerLogs}
use core_dashboard.Web.Sync.{ConnectionStatus}
use core_dashboard.Web.Locale.{Locale}
use core_dashboard.Web.Badges as Badges
use core_dashboard.Web.ServiceCard as ServiceCard
use core_dashboard.Web.UserMenu.{UserMenu}
use core_dashboard.Web.UserMenu as Menu
use core_dashboard.Web.ContainerPanel.{ContainerPanel, click_restart, show_tab, on_chart, close}
use core_dashboard.Web.ContainerPanel as Panel
use core_dashboard.Web.QueueStatus as QueueStatus
use core_dashboard.Web.SecurityLog as SecurityLog
use core_dashboard.Web.AlertsFeed as AlertsFeed
use core_dashboard.Web.Dashboard.{
  Dashboard, Action, select, on_panel, on_menu, on_security, on_alerts, pick_locale, is_selected,
}

-- What the page shows that is not its own state.
pub record Environment (V : Type 0) : Type 0 where
  pub user : AuthUser
  pub services : List ServiceState
  pub status : ConnectionStatus
  pub now : ℕ
  pub locale : Locale
  pub switching : Bool
  pub dependencies : Query (List Badges.DependencyCheck)
  pub rows : Query (List (ChartRow V))
  pub lines : ContainerLogs
  pub queue : Query QueueStatus.TaskforgeQueueStatus
  pub events : Query SecurityLog.SecurityAuditPage
  pub feed : Query AlertsFeed.AlertsPage

abbrev pub is_running : ContainerStatus → Bool
is_running running = true
is_running _ = false

abbrev pub subtitle : List ServiceState → Label
subtitle services =
    if ltb 0 (length services)
    then message "dashboard.subtitleCount" (
        ("count", count (length services))
        ∷ ("running", count (length (filter (λ s. is_running s.status) services)))
        ∷ [])
    else message "dashboard.subtitleWaiting" []

module _ {V : Type 0} where
  abbrev pub header_view : Environment V → Dashboard → View Action
  header_view env s =
      text plain (literal "Core Dashboard")
        ∷ text muted (subtitle env.services)
        ∷ inside pick_locale (Badges.switcher_view env.switching env.locale)
      ++ (inside on_menu (Menu.view env.user s.menu)
          ++ (Badges.dependencies_view env.dependencies ++ Badges.connection_view env.status))

  abbrev pub panel_view : Environment V → Option String → Dashboard → View Action
  panel_view env none s = []
  panel_view env (some container) s =
      if is_set (some container)
      then inside on_panel (Panel.view env.user container env.rows env.lines s.panel)
      else []

  abbrev pub cards_view : Environment V → Dashboard → View Action
  cards_view env s =
      each
        (λ state.
          ServiceCard.view state env.now (is_selected s.selected state.name) (select state.name))
        env.services

  abbrev pub ecosystem_view : Environment V → Dashboard → View Action
  ecosystem_view env s =
      QueueStatus.view env.user env.queue
      ++ (inside on_security (SecurityLog.view env.user env.events s.security)
          ++ inside on_alerts (AlertsFeed.view env.feed s.alerts))

  unfoldable pub view : Environment V → Dashboard → View Action
  view env s =
      header_view env s
      ++ (panel_view env s.selected s ++ (cards_view env s ++ ecosystem_view env s))
