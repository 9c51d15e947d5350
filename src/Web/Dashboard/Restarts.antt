-- ===== src/Web/Dashboard/Restarts.antt =====
-- The restarts that the page requests: how many clicks they take, and for which container.
use core_dashboard.Prelude.{
  ℕ, zero, suc, ◌+◌, ◌*◌, ◌≤◌, ◌≡◌, refl, String, Bool, true, false, Option, none, some, List, [],
  ◌∷◌, ◌++◌, arith, if◌then◌else◌, Bool-cases, ◌==◌, string_equality,
}
use core_dashboard.Shared.Auth.{AuthUser, operator, has_role}
use core_dashboard.Shared.Fetch.{is_set}
use core_dashboard.Web.RestartButton as Restart
use core_dashboard.Web.RestartButton.Clicks.{asked, step-clicks}
use core_dashboard.Web.ContainerPanel as Panel
use core_dashboard.Web.UserMenu as Menu
use core_dashboard.Web.Badges as Badges
use core_dashboard.Web.Locale.{Locale}
use core_dashboard.Web.Dashboard.{
  Dashboard, new, Action, on_panel, select, Call, session, restart, store_locale, Event, used,
  restart_event, act, step, run, session_calls, locale_calls, restart_calls, choose, act_on_panel,
  act_on_selected, button_event, is_selected, on_select, on_menu, on_security, on_alerts,
  pick_locale,
}

-- The restarts among the calls.
abbrev pub restarts : List Call → ℕ
restarts [] = 0
restarts (restart container token ∷ calls) = suc (restarts calls)
restarts (_ ∷ calls) = restarts calls

abbrev panel_clicks : AuthUser → Panel.Action → ℕ
panel_clicks user Panel.click_restart = if has_role user operator then 1 else 0
panel_clicks user _ = 0

abbrev event_clicks : Event → ℕ
event_clicks (used user token locale switching (on_panel action)) = panel_clicks user action
event_clicks _ = 0

-- The clicks on the restart button of users who have one.
abbrev pub clicks : List Event → ℕ
clicks [] = 0
clicks (e ∷ events) = event_clicks e + clicks events

restarts-append :
    (calls more : List Call) → restarts (calls ++ more) ≡ restarts calls + restarts more
restarts-append [] more = omega arith
restarts-append (session call ∷ calls) more = restarts-append calls more
restarts-append (restart container token ∷ calls) more = omega (arith, restarts-append calls more)
restarts-append (store_locale locale ∷ calls) more = restarts-append calls more

restarts-session_calls : (calls : List Menu.Call) → restarts (session_calls calls) ≡ 0
restarts-session_calls [] = refl
restarts-session_calls (call ∷ calls) = restarts-session_calls calls

restarts-locale_calls : (locale : Option Locale) → restarts (locale_calls locale) ≡ 0
restarts-locale_calls none = refl
restarts-locale_calls (some locale) = refl

restarts-restart_calls :
    (n : ℕ) (container : String) (token : Option String)
    → restarts (restart_calls n container token) ≤ n
restarts-restart_calls zero container token = omega arith
restarts-restart_calls (suc n) container none = omega arith
restarts-restart_calls (suc n) container (some token) =
    omega (arith, restarts-restart_calls n container (some token))

-- A button that waits for its second click counts for one.
abbrev held : Dashboard → ℕ
held s = asked s.panel.restart.status

choose-held : (selected : Option String) (s : Dashboard) → held (choose selected s) ≤ held s
choose-held selected s = ground (arith, Bool-cases (is_set selected))

switch_to-restart :
    (from to : Panel.PanelTab) (s : Panel.ContainerPanel)
    → (Panel.switch_to from to s).restart ≡ s.restart
switch_to-restart Panel.metrics Panel.metrics s = refl
switch_to-restart Panel.metrics Panel.logs s = refl
switch_to-restart Panel.logs Panel.metrics s = refl
switch_to-restart Panel.logs Panel.logs s = refl

click-clicks :
    (user : AuthUser) (token : Option String) (s : Restart.RestartButton)
    → 2 * (Restart.click user token s).1 + asked (Restart.click user token s).0.status
      ≤ panel_clicks user Panel.click_restart + asked s.status
unfolding Restart.step
click-clicks user token s = omega (arith, step-clicks (Restart.clicked user token) s)

act_on_panel-clicks :
    (user : AuthUser) (token : Option String) (action : Panel.Action) (container : String)
    (s : Dashboard)
    → 2 * restarts (act_on_panel user token action container s).1
        + held (act_on_panel user token action container s).0
      ≤ panel_clicks user action + held s
act_on_panel-clicks user token (Panel.show_tab tab) container s =
    rw (switch_to-restart s.panel.tab tab s.panel) (omega arith)
act_on_panel-clicks user token (Panel.on_chart action) container s = omega arith
act_on_panel-clicks user token Panel.click_restart container s =
    let made = (Restart.click user token s.panel.restart).1 in
    omega
      (arith, click-clicks user token s.panel.restart, restarts-restart_calls made container token)
act_on_panel-clicks user token Panel.close container s = omega (arith, choose-held none s)

act_on_selected-clicks :
    (user : AuthUser) (token : Option String) (action : Panel.Action) (selected : Option String)
    (s : Dashboard)
    → 2 * restarts (act_on_selected user token action selected s).1
        + held (act_on_selected user token action selected s).0
      ≤ panel_clicks user action + held s
act_on_selected-clicks user token action none s = omega arith
act_on_selected-clicks user token action (some container) s =
    act_on_panel-clicks user token action container s

button_event-held : (event : Restart.Event) (s : Dashboard) → held (button_event event s) ≤ held s
unfolding Restart.step Restart.replied
button_event-held (Restart.clicked user token) s = omega arith
button_event-held (Restart.answered reply) s = ground arith
button_event-held (Restart.timer n) s = ground arith

step-clicks_of :
    (e : Event) (s : Dashboard)
    → 2 * restarts (step e s).1 + held (step e s).0 ≤ event_clicks e + held s
unfolding step act on_select
step-clicks_of (used user token locale switching (select name)) s =
    omega (arith, choose-held (if is_selected s.selected name then none else some name) s)
step-clicks_of (used user token locale switching (on_panel action)) s =
    act_on_selected-clicks user token action s.selected s
step-clicks_of (used user token locale switching (on_menu action)) s =
    omega (arith, restarts-session_calls (Menu.act action s.menu).1)
step-clicks_of (used user token locale switching (on_security action)) s = omega arith
step-clicks_of (used user token locale switching (on_alerts action)) s = omega arith
step-clicks_of (used user token locale switching (pick_locale next)) s =
    omega (arith, restarts-locale_calls (Badges.on_select switching locale next))
step-clicks_of (restart_event event) s = omega (arith, button_event-held event s)

run-clicks_from :
    (events : List Event) (s : Dashboard) → 2 * restarts (run events s).1 ≤ clicks events + held s
unfolding run
run-clicks_from [] s = omega arith
run-clicks_from (e ∷ events) s =
    let (t, calls) = step e s in
    let more = (run events t).1 in
    omega (arith, step-clicks_of e s, run-clicks_from events t, restarts-append calls more)

-- However the page is used, and whatever answers and timers come: it requests a restart at most once
-- for every two clicks on the restart button of users who have the operator's role.
pub run-restarts : (events : List Event) → 2 * restarts (run events new).1 ≤ clicks events
run-restarts events = omega (arith, run-clicks_from events new)

module _ (user : AuthUser) (token : String) (locale : Locale) (switching : Bool) where
  abbrev pub use_by : Action → Event
  use_by action = used user (some token) locale switching action

  -- The two clicks are not tied to one container: after a click on the button of one container, the
  -- user selects another and clicks once, and the restart of the second is requested. With the
  -- panel closed in between, nothing is.
  pub carried_confirmation :
      (first second : String) (s : Dashboard)
      → has_role user operator ≡ true
      → is_set (some token) ≡ true
      → is_set (some second) ≡ true
      → (second == first) ≡ false
      → s.selected ≡ some first
      → s.panel.restart.status ≡ Restart.idle
      → ((run
            (use_by (on_panel Panel.click_restart)
              ∷ use_by (select second)
              ∷ use_by (on_panel Panel.click_restart)
              ∷ [])
            s).1
          ≡ restart second token ∷ [])
        × ((run
              (use_by (on_panel Panel.click_restart)
                ∷ use_by (on_panel Panel.close)
                ∷ use_by (select second)
                ∷ use_by (on_panel Panel.click_restart)
                ∷ [])
              s).1
            ≡ [])
  unfolding run step act on_select Restart.click
  carried_confirmation first second s role given named other chosen fresh =
      (ground arith, ground arith)
