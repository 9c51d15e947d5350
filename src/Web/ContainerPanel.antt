-- ===== src/Web/ContainerPanel.antt =====
-- apps/web/src/components/container-panel.tsx, with the restart button (restart-button.tsx), the
-- charts and the logs in it. React keeps the state of the panel and of its button while it shows one
-- container or another; the tab that is not shown loses its own.
use core_dashboard.Prelude.{
  String, Bool, true, false, Option, none, some, List, [], ◌∷◌, ◌++◌, if◌then◌else◌,
}
use core_dashboard.Shared.Auth.{AuthUser, operator, has_role}
use core_dashboard.Web.View.{
  literal, message, Tone, plain, muted, success, warning, danger, chosen, text, button, View,
  inside,
}
use core_dashboard.Web.RestartButton as Restart
use core_dashboard.Web.RestartButton.{RestartButton, Status, idle, confirm, pending, done, failed}
use core_dashboard.Web.Charts.{ChartRow}
use core_dashboard.Web.Query.{Query}
use core_dashboard.Web.MetricsPanel.{MetricsPanel}
use core_dashboard.Web.MetricsPanel as Metrics
use core_dashboard.Web.ContainerLogs.{ContainerLogs}
use core_dashboard.Web.LogViewer

pub data PanelTab : Type 0 where
  metrics logs : PanelTab

pub record ContainerPanel : Type 0 where
  pub tab : PanelTab
  pub restart : RestartButton
  pub charts : MetricsPanel
  pub pinned : Bool

abbrev pub new : ContainerPanel
new = record { tab = metrics; restart = Restart.new; charts = Metrics.new; pinned = true }

pub data Action : Type 0 where
  show_tab : PanelTab → Action
  on_chart : Metrics.Action → Action
  click_restart : Action
  close : Action

abbrev pub switch_to : PanelTab → PanelTab → ContainerPanel → ContainerPanel
switch_to metrics metrics s = s
switch_to logs logs s = s
switch_to metrics logs s = record s { tab = logs; pinned = true }
switch_to logs metrics s = record s { tab = metrics; charts = Metrics.new }

abbrev pub status_tone : Status → Tone
status_tone failed = danger
status_tone done = success
status_tone confirm = warning
status_tone idle = muted
status_tone pending = muted

abbrev pub status_key : Status → String
status_key idle = "restartButton.idle"
status_key confirm = "restartButton.confirm"
status_key pending = "restartButton.pending"
status_key done = "restartButton.done"
status_key failed = "restartButton.error"

abbrev pub is_pending : Status → Bool
is_pending pending = true
is_pending _ = false

-- The button's title is the message of the last error.
abbrev pub title_view : Option String → View Action
title_view none = []
title_view (some words) = text danger (literal words) ∷ []

unfoldable pub restart_view : AuthUser → RestartButton → View Action
restart_view user s =
    if has_role user operator
    then button (is_pending s.status) (status_tone s.status) (message (status_key s.status) [])
        click_restart
      ∷ title_view s.message
    else []

abbrev pub tab_tone : PanelTab → PanelTab → Tone
tab_tone metrics metrics = chosen
tab_tone logs logs = chosen
tab_tone _ _ = muted

module _ {V : Type 0} where
  abbrev pub body_view :
      PanelTab → Query (List (ChartRow V)) → ContainerLogs → ContainerPanel → View Action
  body_view metrics query lines s = inside on_chart (Metrics.view query s.charts)
  body_view logs query lines s = LogViewer.view s.pinned lines

  unfoldable pub view :
      AuthUser → String → Query (List (ChartRow V)) → ContainerLogs → ContainerPanel → View Action
  view user container query lines s =
      text plain (literal container)
        ∷ button false (tab_tone metrics s.tab) (message "containerPanel.tabMetrics" [])
            (show_tab metrics)
        ∷ button false (tab_tone logs s.tab) (message "containerPanel.tabLogs" []) (show_tab logs)
        ∷ restart_view user s.restart
      ++ (button false muted (message "containerPanel.close" []) close
          ∷ body_view s.tab query lines s)
