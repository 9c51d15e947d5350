-- ===== src/Web/Live/Tests.antt =====
-- The theorems on the web's live state, at concrete lists.
use core_dashboard.Prelude.{
  ◌+◌, ◌≤◌, String, ◌≡◌, refl, Bool, none, some, List, [], ◌∷◌, length, arith, codes,
}
use core_dashboard.Shared.Events.{
  ServiceState, ServiceUpdate, running, healthy, restart, LogLine, LogsBatch, stdout,
}
use core_dashboard.Shared.Sorting.{count}
use core_dashboard.Web.Live.{
  Comparison, same, apply_update, empty_logs_buffer, append_all, append_batch, format_uptime,
  units_of, hours_minutes,
}
use core_dashboard.Web.Live.Lists.{named, others, apply_update-count, sent, append_all-length}
use core_dashboard.Web.Live.Units.{Shows, format_uptime-Shows}

abbrev state : String → String → ServiceState
state id name = record {
  id = id;
  name = name;
  service = name;
  project = "shop";
  image = "img";
  status = running;
  health = healthy;
  started_at = none;
  uptime_sec = none;
}

abbrev update : ServiceUpdate
update = record {
  service = "shop.web";
  state = state "9" "web";
  occurred_at = 0;
  action = restart;
  exit_code = none;
}

abbrev services : List ServiceState
services = state "1" "web" ∷ state "2" "db" ∷ []

abbrev compare : String → String → Comparison
compare a b = same

apply_update-count_case :
    (count (named "web") (apply_update compare services update) ≡ 1)
    × ((test : ServiceState → Bool)
        → count (others "web" test) (apply_update compare services update)
          ≡ count (others "web" test) services)
apply_update-count_case = apply_update-count compare services update

abbrev line : LogLine
line = record { ts = []; source = stdout; text = codes "x" }

abbrev batches : List LogsBatch
batches =
    record { container = "web"; lines = line ∷ line ∷ []; dropped = 0 }
    ∷ record { container = "web"; lines = line ∷ []; dropped = 3 }
    ∷ []

append_all-batches : (append_all 2 empty_logs_buffer batches).dropped ≡ 4
unfolding append_all append_batch
append_all-batches = refl

append_all-length_case :
    (length (append_all 2 empty_logs_buffer batches).lines ≤ 2)
    × (length (append_all 2 empty_logs_buffer batches).lines
          + (append_all 2 empty_logs_buffer batches).dropped
        ≡ 0 + 0 + sent batches)
append_all-length_case = append_all-length 2 empty_logs_buffer batches (omega arith)

uptime : format_uptime (some 1000) 7501000 ≡ some (hours_minutes 2 5)
unfolding format_uptime units_of
uptime = refl

format_uptime-Shows_case : Shows 7500 (hours_minutes 2 5)
format_uptime-Shows_case = format_uptime-Shows 1000 7501000 (hours_minutes 2 5) uptime
