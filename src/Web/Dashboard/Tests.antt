-- ===== src/Web/Dashboard/Tests.antt =====
-- The page at concrete users and clicks.
use core_dashboard.Prelude.{ℕ, ◌*◌, ◌≤◌, ◌≡◌, ◌↔◌, refl, true, false, none, some, List, [], ◌∷◌}
use core_dashboard.Shared.Auth.{AuthUser, operator, admin, has_role}
use core_dashboard.Web.View.Offers.{Offers}
use core_dashboard.Web.Query.{Query}
use core_dashboard.Web.Sync.{live}
use core_dashboard.Web.Locale.{es}
use core_dashboard.Web.ContainerLogs as Logs
use core_dashboard.Web.RestartButton as Restart
use core_dashboard.Web.ContainerPanel as Panel
use core_dashboard.Web.Dashboard.{
  Dashboard, new, select, on_panel, restart, Event, act, step, run, on_select,
}
use core_dashboard.Web.Dashboard.Page.{Environment, view}
use core_dashboard.Web.Dashboard.Restarts.{
  restarts, clicks, run-restarts, use_by, carried_confirmation,
}
use core_dashboard.Web.Dashboard.Access.{IsShown, Offers-restart}

abbrev user : AuthUser
user = record { sub = some "u1"; email = none; role = admin }

abbrev unanswered : {A : Type 0} → Query A
unanswered = record { content = none; error = none; is_loading = true }

abbrev env : Environment ℕ
env = record {
  user = user;
  services = [];
  status = live;
  now = 0;
  locale = es;
  switching = false;
  dependencies = unanswered;
  rows = unanswered;
  lines = Logs.new;
  queue = unanswered;
  events = unanswered;
  feed = unanswered;
}

abbrev opened : Dashboard
opened = record new { selected = some "api" }

abbrev twice : List Event
twice =
    use_by user "t" es false (select "api")
    ∷ use_by user "t" es false (on_panel Panel.click_restart)
    ∷ use_by user "t" es false (on_panel Panel.click_restart)
    ∷ []

restarted_once : (run twice new).1 ≡ restart "api" "t" ∷ []
unfolding run step act on_select Restart.click has_role
restarted_once = refl

run-restarts_example : 2 * restarts (run twice new).1 ≤ clicks twice
run-restarts_example = run-restarts twice

carried_confirmation_example :
    ((run
        (use_by user "t" es false (on_panel Panel.click_restart)
          ∷ use_by user "t" es false (select "db")
          ∷ use_by user "t" es false (on_panel Panel.click_restart)
          ∷ [])
        opened).1
      ≡ restart "db" "t" ∷ [])
    × ((run
          (use_by user "t" es false (on_panel Panel.click_restart)
            ∷ use_by user "t" es false (on_panel Panel.close)
            ∷ use_by user "t" es false (select "db")
            ∷ use_by user "t" es false (on_panel Panel.click_restart)
            ∷ [])
          opened).1
        ≡ [])
carried_confirmation_example =
    unfold has_role in
    carried_confirmation user "t" es false "api" "db" opened refl refl refl refl refl refl

Offers-restart_example : Offers (on_panel Panel.click_restart) (view env opened) ↔ (
    IsShown opened
    × (has_role env.user operator ≡ true)
    × (Panel.is_pending opened.panel.restart.status ≡ false))
Offers-restart_example = Offers-restart env opened
