-- ===== src/Alerts/Tests.antt =====
-- The theorems on alerts, at concrete updates, feeds and settings.
use core_dashboard.Prelude.{
  ◌≤◌, not, ◌&&◌, any, if◌then◌else◌, String, ◌≡◌, ◌≢◌, ◌↔◌, refl, true, false, none, some, List,
  [], ◌∷◌, arith, All, map, contains, string_equality, eq_iff, Bool, leb, length, codes,
}
use core_dashboard.Shared.Auth.{AuthUser, admin}
use core_dashboard.Shared.Sorting.{count, IsSorted, sort, insert_sorted}
use core_dashboard.Shared.Values.{natural}
use core_dashboard.Shared.Events.{
  ServiceUpdate, ContainerLifecycleAction, die, restart, start, running, healthy, AlertType, deploy,
  container_down, job_dlq,
}
use core_dashboard.Shared.Maps.{lookup, insert, remove, add}
use core_dashboard.Alerts.{
  init, Event, updated, fired, answered, ask, send, down, restarted, run, step, handle_update,
  schedule_die_alert, alert_restarted, maybe_alert, started, timer_fired, pick,
  maybe_alert_answered, is_on_cooldown, cooldown_key,
}
use core_dashboard.Alerts.Cooldown.{IsSpaced, run-IsSpaced}
use core_dashboard.Alerts.Coalescing.{timer_fired-die, run-restart, IsNotDown}
use core_dashboard.Alerts.Poller.{AlertItem, poll, poll_limit, find_index, fresh}
use core_dashboard.Alerts.Poller as Poller
use core_dashboard.Alerts.Poller.Feed.{Poll, polls, told_from, polls-init}
use core_dashboard.Alerts.Settings as Settings
use core_dashboard.Alerts.Settings.{
  AlertSetting, UpdateAlertSettingBody, list, max_limit, known_keys, parse_non_negative_int,
  list_settings, list_unsorted, default_limit, is_empty, update,
}
use core_dashboard.Alerts.Settings.Listing.{has_key, unchanged, list_settings-rows}
use core_dashboard.Alerts.Settings.Rows.{update-updated, list_iff}

abbrev update_of : ContainerLifecycleAction → String → ServiceUpdate
update_of action name = record {
  service = name;
  state = record {
    id = "1";
    name = name;
    service = name;
    project = "shop";
    image = "img";
    status = running;
    health = healthy;
    started_at = none;
    uptime_sec = none;
  };
  occurred_at = 0;
  action = action;
  exit_code = some 137;
}

-- A crash is told, a second one within the minute is not, and a restart takes a crash back.
abbrev crashes : List Event
crashes =
    updated (update_of die "web")
    ∷ fired "web"
    ∷ answered 0 none 5000
    ∷ updated (update_of die "web")
    ∷ fired "web"
    ∷ answered 0 none 9000
    ∷ updated (update_of die "db")
    ∷ updated (update_of restart "db")
    ∷ fired "db"
    ∷ answered 0 (some false) 9500
    ∷ []

run-crashes :
    (run crashes init).1
    ≡ ask (down "web" (some 137))
      ∷ send (down "web" (some 137)) 5000
      ∷ ask (down "web" (some 137))
      ∷ ask (restarted "db")
      ∷ []
unfolding run step handle_update schedule_die_alert alert_restarted maybe_alert started timer_fired
    pick maybe_alert_answered is_on_cooldown cooldown_key lookup insert remove add
run-crashes = refl

run-IsSpaced_example : IsSpaced (run crashes init).1
run-IsSpaced_example = run-IsSpaced crashes init

abbrev elsewhere : List Event
elsewhere = updated (update_of restart "db") ∷ answered 0 none 5000 ∷ []

timer_fired-die_case :
    (timer_fired "web" (run elsewhere (handle_update (update_of die "web") init).0).0).1
    ≡ ask (down "web" (some 137)) ∷ []
timer_fired-die_case =
    timer_fired-die (update_of die "web") elsewhere init refl
      ((λ e. ground (arith, eq_iff "db" "web")), (tt, tt))

run-restart_example :
    All
      (IsNotDown "web")
      (run
        (fired "web" ∷ updated (update_of start "web") ∷ [])
        (handle_update (update_of restart "web") (handle_update (update_of die "web") init).0).0).1
run-restart_example =
    run-restart (update_of restart "web") (fired "web" ∷ updated (update_of start "web") ∷ [])
      (handle_update (update_of die "web") init).0 refl (tt, ((λ e. ground arith), tt))

abbrev item : String → AlertType → AlertItem
item id type = record { id = id; type = type }

-- The first poll and a later one fail.
abbrev feed : List Poll
feed =
    ([], false)
    ∷ (item "1" deploy ∷ [], true)
    ∷ (item "3" job_dlq ∷ item "2" container_down ∷ [], true)
    ∷ (item "4" deploy ∷ [], false)
    ∷ (item "5" deploy ∷ [], true)
    ∷ []

polls-init_example : polls feed [] Poller.init ≡ told_from feed
polls-init_example =
    polls-init [] feed (omega arith, (refl, (refl, tt)), (omega arith, (refl, (refl, tt)), tt))

abbrev body : UpdateAlertSettingBody
body = record { enabled = some false; threshold = none }

abbrev user : AuthUser
user = record { sub = some "u1"; email = none; role = admin }

abbrev row : AlertSetting
row = record { key = "container_down"; enabled = false; threshold = none; updated_by = some "u1" }

changed : update "container_down" body user [] ≡ Settings.updated row (("container_down", row) ∷ [])
unfolding update lookup insert
changed = refl

update-updated_case :
    (contains "container_down" known_keys ≡ true)
    × (is_empty body ≡ false)
    × (lookup "container_down" (("container_down", row) ∷ []) ≡ some row)
    × (row.updated_by ≡ user.sub)
    × ((k : String) → "container_down" ≢ k → lookup k (("container_down", row) ∷ []) ≡ lookup k [])
update-updated_case =
    update-updated "container_down" body user [] (("container_down", row) ∷ []) row changed

list_iff_case : (list (some (natural 200)) none ≡ some (200, 0)) ↔ (
    (parse_non_negative_int (some (natural 200)) default_limit ≡ some 200)
    × (1 ≤ 200)
    × (200 ≤ max_limit)
    × (parse_non_negative_int none 0 ≡ some 0))
list_iff_case = list_iff (some (natural 200)) none 200 0

-- Keys in the order of their lengths.
abbrev shorter : String → String → Bool
shorter a b = leb (length (codes a)) (length (codes b))

abbrev stored_settings : List AlertSetting
stored_settings =
    record {
      key = "container_restarted";
      enabled = false;
      threshold = none;
      updated_by = some "u1";
    }
    ∷ record { key = "disk"; enabled = true; threshold = none; updated_by = none }
    ∷ []

list_settings-stored :
    map (λ s. s.key) (list_settings shorter stored_settings)
    ≡ "disk" ∷ "container_down" ∷ "container_restarted" ∷ []
unfolding list_settings list_unsorted sort insert_sorted
list_settings-stored = refl

list_settings-rows_example :
    (count (λ s. has_key "container_down" s && s.enabled) (list_settings shorter stored_settings)
      ≡ (if contains "container_down" known_keys
            && not (any (has_key "container_down") stored_settings)
          then (if (unchanged "container_down").enabled then 1 else 0)
          else count (λ s. has_key "container_down" s && s.enabled) stored_settings))
    × IsSorted (λ a b. shorter a.key b.key) (list_settings shorter stored_settings)
list_settings-rows_example =
    list_settings-rows shorter stored_settings "container_down" (λ s. s.enabled)
      (λ a b c e f. ground arith) (λ a b e. ground arith)
