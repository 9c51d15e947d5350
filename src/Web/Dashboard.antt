-- ===== src/Web/Dashboard.antt =====
-- apps/web/src/components/live-dashboard.tsx: the state of the whole page and what its controls do.
pub mod Page
pub mod Restarts
mod Shown
pub mod Parts
pub mod Access
mod Tests
use core_dashboard.Prelude.{
  ℕ, zero, suc, String, Bool, true, false, ◌&&◌, Option, none, some, List, [], ◌∷◌, ◌++◌,
  if◌then◌else◌, filter, length, ◌==◌, string_equality, ltb,
}
use core_dashboard.Shared.Auth.{AuthUser}
use core_dashboard.Shared.Fetch.{is_set}
use core_dashboard.Shared.Events.{ServiceState, ContainerStatus, running}
use core_dashboard.Web.View.{
  count, Label, literal, message, plain, muted, chosen, Item, text, View, each, inside,
}
use core_dashboard.Web.Query.{Query}
use core_dashboard.Web.Charts.{ChartRow}
use core_dashboard.Web.ContainerLogs.{ContainerLogs}
use core_dashboard.Web.Sync.{ConnectionStatus}
use core_dashboard.Web.Locale.{Locale}
use core_dashboard.Web.Pager.{AlertsFeedPanel, SecurityAuditPanel}
use core_dashboard.Web.Badges as Badges
use core_dashboard.Web.ServiceCard as ServiceCard
use core_dashboard.Web.UserMenu.{UserMenu}
use core_dashboard.Web.UserMenu as Menu
use core_dashboard.Web.ContainerPanel.{ContainerPanel, click_restart, show_tab, on_chart, close}
use core_dashboard.Web.ContainerPanel as Panel
use core_dashboard.Web.QueueStatus as QueueStatus
use core_dashboard.Web.SecurityLog as SecurityLog
use core_dashboard.Web.AlertsFeed as AlertsFeed
use core_dashboard.Web.MetricsPanel as Metrics
use core_dashboard.Web.RestartButton as Restart
use core_dashboard.Web.RestartButton.{RestartButton}

pub record Dashboard : Type 0 where
  pub selected : Option String
  pub panel : ContainerPanel
  pub menu : UserMenu
  pub security : SecurityAuditPanel
  pub alerts : AlertsFeedPanel

pub data Action : Type 0 where
  select : String → Action
  on_panel : Panel.Action → Action
  on_menu : Menu.Action → Action
  on_security : SecurityLog.Action → Action
  on_alerts : AlertsFeed.Action → Action
  pick_locale : Locale → Action

-- `state.name === selected`.
abbrev pub is_selected : Option String → String → Bool
is_selected none name = false
is_selected (some selected) name = name == selected

-- What the page asks of the session, of the api and of the server's action.
pub data Call : Type 0 where
  session : Menu.Call → Call
  restart : String → String → Call
  store_locale : Locale → Call

abbrev pub locale_calls : Option Locale → List Call
locale_calls none = []
locale_calls (some locale) = store_locale locale ∷ []

abbrev pub session_calls : List Menu.Call → List Call
session_calls [] = []
session_calls (call ∷ calls) = session call ∷ session_calls calls

-- The requests that the button makes, for the container and with the token of its render.
abbrev pub restart_calls : ℕ → String → Option String → List Call
restart_calls zero container token = []
restart_calls (suc n) container none = []
restart_calls (suc n) container (some token) =
    restart container token ∷ restart_calls n container (some token)

-- The panel keeps its state from one container to another, and loses it when it is not rendered.
abbrev pub panel_for : Option String → ContainerPanel → ContainerPanel
panel_for selected panel = if is_set selected then panel else Panel.new

abbrev pub choose : Option String → Dashboard → Dashboard
choose selected s = record s { selected = selected; panel = panel_for selected s.panel }

-- `setSelected(state.name === selected ? null : state.name)`.
unfoldable pub on_select : String → Dashboard → Dashboard
on_select name s = choose (if is_selected s.selected name then none else some name) s

abbrev pub with_restart : RestartButton → Dashboard → Dashboard
with_restart button s = record s { panel = record s.panel { restart = button } }

abbrev pub click_for : AuthUser → Option String → String → Dashboard → Dashboard × List Call
click_for user token container s =
    let (button, made) = Restart.click user token s.panel.restart in
    (with_restart button s, restart_calls made container token)

abbrev pub act_on_panel :
    AuthUser → Option String → Panel.Action → String → Dashboard → Dashboard × List Call
act_on_panel user token (show_tab tab) container s =
    (record s { panel = Panel.switch_to s.panel.tab tab s.panel }, [])
act_on_panel user token (on_chart action) container s =
    (record s { panel = record s.panel { charts = Metrics.act action s.panel.charts } }, [])
act_on_panel user token click_restart container s = click_for user token container s
act_on_panel user token close container s = (choose none s, [])

abbrev pub act_on_selected :
    AuthUser → Option String → Panel.Action → Option String → Dashboard → Dashboard × List Call
act_on_selected user token action none s = (s, [])
act_on_selected user token action (some container) s = act_on_panel user token action container s

-- What a control does, for a user with a token.
unfoldable pub act :
    AuthUser → Option String → Locale → Bool → Action → Dashboard → Dashboard × List Call
act user token locale switching (select name) s = (on_select name s, [])
act user token locale switching (on_panel action) s = act_on_selected user token action s.selected s
act user token locale switching (on_menu action) s =
    let (menu, calls) = Menu.act action s.menu in (record s { menu = menu }, session_calls calls)
act user token locale switching (on_security action) s =
    (record s { security = SecurityLog.act action s.security }, [])
act user token locale switching (on_alerts action) s =
    (record s { alerts = AlertsFeed.act action s.alerts }, [])
act user token locale switching (pick_locale next) s =
    (s, locale_calls (Badges.on_select switching locale next))

-- A control that is used, by whom and with which token and language; the answer to a restart and
-- a timer of its button, which belong to the panel that is shown.
pub data Event : Type 0 where
  used : AuthUser → Option String → Locale → Bool → Action → Event
  restart_event : Restart.Event → Event

abbrev pub button_event : Restart.Event → Dashboard → Dashboard
button_event (Restart.clicked user token) s = s
button_event event s = with_restart (Restart.step event s.panel.restart).0 s

unfoldable pub step : Event → Dashboard → Dashboard × List Call
step (used user token locale switching action) s = act user token locale switching action s
step (restart_event event) s = (button_event event s, [])

unfoldable pub run : List Event → Dashboard → Dashboard × List Call
run [] s = (s, [])
run (e ∷ events) s = let (t, calls) = step e s in let (u, more) = run events t in (u, calls ++ more)

abbrev pub new : Dashboard
new = record {
  selected = none;
  panel = Panel.new;
  menu = Menu.new;
  security = record { action = none; user_id = []; skip = 0 };
  alerts = record { type = none; offset = 0 };
}
