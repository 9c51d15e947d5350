-- ===== src/Containers.antt =====
-- apps/api/src/containers/containers.service.ts: the stack's containers and their events. What
-- Docker lists, inspects and streams, `JSON.parse`, `Date.parse`, the order of `localeCompare`,
-- the clock and `COMPOSE_PROJECTS` are parameters.
pub mod Stream
pub mod Updates
mod Tests
use Prim.Native.String
use core_dashboard.Prelude.{
  ℕ, zero, suc, ◌+◌, ◌-◌, ◌*◌, ◌/◌, String, Bool, true, false, not, ◌&&◌, ◌||◌, Option, none, some,
  List, [], ◌∷◌, ◌++◌, map, filter, contains, ◌==◌, string_equality, text_equality, number_equality,
  if◌then◌else◌, Text, codes, split, trim, leb, length,
}
use core_dashboard.Shared.Events.{
  ContainerStatus, dead, exited, ContainerHealth, no_health, ServiceState, StateSnapshot,
  ContainerLifecycleAction, start, die, stop, kill, restart, pause, unpause, health_status,
  ServiceUpdate, service_key,
}
use core_dashboard.Shared.Fetch.{is_set}
use core_dashboard.Shared.Maps.{lookup}
use core_dashboard.Shared.Sorting.{sort}
use core_dashboard.Logs.Lines.{pop}

abbrev pub compose_service : String
compose_service = "com.docker.compose.service"

abbrev pub compose_project : String
compose_project = "com.docker.compose.project"

abbrev pub event_stream_retry_ms : ℕ
event_stream_retry_ms = 5000

abbrev pub Labels : Type 0
Labels = List (String × String)

-- `value ?? fallback`.
abbrev pub or_else {ℓ} : {A : Type ℓ} → Option A → A → A
or_else none a = a
or_else (some b) a = b

abbrev pub map_some {ℓ κ} : {A : Type ℓ} {B : Type κ} → (A → B) → Option A → Option B
map_some f none = none
map_some f (some a) = some (f a)

-- `projects` is `COMPOSE_PROJECTS`.
abbrev pub is_listed : Option String → String → Bool
is_listed none project = true
is_listed (some list) project =
    list == "" || contains (codes project) (map trim (split b',' (codes list)))

unfoldable pub is_managed : Option String → Labels → Bool
is_managed projects labels =
    is_set (lookup compose_service labels)
    && is_listed projects (or_else (lookup compose_project labels) "")

-- `s.slice(0, n)` and `s.replace(/^\//, "")`.
unfoldable pub prefix : ℕ → String → String
prefix zero s = ""
prefix (suc n) String.[] = ""
prefix (suc n) (String.◌∷◌ c s) = String.◌∷◌ c (prefix n s)

abbrev pub tail : String → String
tail String.[] = ""
tail (String.◌∷◌ c s) = s

abbrev pub without_slash : String → String
without_slash s = if prefix 1 s == "/" then tail s else s

-- What Docker tells of a container when it is inspected, and when it is listed.
pub record ContainerInfo : Type 0 where
  pub id : String
  pub name : String
  pub labels : Labels
  pub image : String
  pub status : Option ContainerStatus
  pub health : Option ContainerHealth
  pub running : Bool
  pub started_at : Option String

pub record ListedContainer : Type 0 where
  pub id : String
  pub names : List String
  pub labels : Labels

-- `StartedAt` unless it is Docker's zero time or the container does not run.
abbrev pub start_of : Bool → Option String → Option String
start_of false at = none
start_of true none = none
start_of true (some at) = if prefix 4 at == "0001" || at == "" then none else some at

pub record DockerEvent : Type 0 where
  pub action : Option Text
  pub id : Option String
  pub actor_id : Option String
  pub attributes : Labels

abbrev pub lifecycle_events : List (Text × ContainerLifecycleAction)
lifecycle_events =
    (codes "start", start)
    ∷ (codes "die", die)
    ∷ (codes "stop", stop)
    ∷ (codes "kill", kill)
    ∷ (codes "restart", restart)
    ∷ (codes "pause", pause)
    ∷ (codes "unpause", unpause)
    ∷ (codes "health_status", health_status)
    ∷ []

unfoldable pub find_action :
    Text → List (Text × ContainerLifecycleAction) → Option ContainerLifecycleAction
find_action word [] = none
find_action word ((name, action) ∷ actions) =
    if name == word then some action else find_action word actions

-- `action.split(":")[0]`.
abbrev pub head_of : List Text → Text
head_of [] = []
head_of (part ∷ parts) = part

unfoldable pub action_of : Option Text → Option ContainerLifecycleAction
action_of none = none
action_of (some word) = find_action (trim (head_of (split b':' word))) lifecycle_events

-- The number in front of a text, for exit codes, which carry no sign.
abbrev pub digit : ℕ → Option ℕ
digit c = if leb b'0' c && leb c b'9' then some (c - b'0') else none

unfoldable pub read_digits : Option ℕ → Text → Option ℕ
read_digits n [] = n
read_digits n (c ∷ s) = elim (digit c) [
  | none ↦ n
  | some d ↦ read_digits (some (or_else n 0 * 10 + d)) s
]

abbrev pub exit_code_of : ContainerLifecycleAction → Option String → Option ℕ
exit_code_of die (some code) = read_digits none (codes code)
exit_code_of _ _ = none

-- `Actor.ID ?? event.id`.
abbrev pub id_of : DockerEvent → Option String
id_of event = elim event.actor_id [ none ↦ event.id | some id ↦ some id ]

-- The state of a container that is gone, from its event.
abbrev pub synthetic : String → Labels → ServiceState
synthetic id attributes = record {
  id = prefix 12 id;
  name = or_else (lookup "name" attributes) (prefix 12 id);
  service = or_else (lookup compose_service attributes) "";
  project = or_else (lookup compose_project attributes) "";
  image = or_else (lookup "image" attributes) "";
  status = exited;
  health = no_health;
  started_at = none;
  uptime_sec = none;
}

-- The states of the inspections that succeed.
abbrev pub present {ℓ} : {A : Type ℓ} → List (Option A) → List A
present [] = []
present (none ∷ xs) = present xs
present (some x ∷ xs) = x ∷ present xs

-- `find`.
unfoldable pub find {ℓ} : {A : Type ℓ} → (A → Bool) → List A → Option A
find p [] = none
find p (x ∷ xs) = if p x then some x else find p xs

module _ (inspect : String → Option ContainerInfo) (parse_date : String → ℕ)
    (projects : Option String) (now : ℕ) where
  abbrev pub uptime_of : String → ℕ
  uptime_of at = (now - parse_date at + 500) / 1000

  abbrev pub state_of : ContainerInfo → ServiceState
  state_of info = record {
    id = prefix 12 info.id;
    name = without_slash info.name;
    service = or_else (lookup compose_service info.labels) "";
    project = or_else (lookup compose_project info.labels) "";
    image = info.image;
    status = or_else info.status dead;
    health = or_else info.health no_health;
    started_at = map_some parse_date (start_of info.running info.started_at);
    uptime_sec = map_some uptime_of (start_of info.running info.started_at);
  }

  unfoldable pub inspect_state : String → Option ServiceState
  inspect_state id = map_some state_of (inspect id)

  -- `le` is `a.localeCompare(b) <= 0`.
  unfoldable pub get_snapshot : (String → String → Bool) → List ListedContainer → StateSnapshot
  get_snapshot le containers = record {
    services =
        sort (λ a b. le a.name b.name)
          (present (
            map (λ c. inspect_state c.id) (filter (λ c. is_managed projects c.labels) containers)));
    generated_at = now;
  }

  abbrev pub is_match : String → ListedContainer → Bool
  is_match name c = is_managed projects c.labels && contains (String.◌++◌ "/" name) c.names

  abbrev pub inspect_match : Option ListedContainer → Option ServiceState
  inspect_match none = none
  inspect_match (some c) = inspect_state c.id

  unfoldable pub find_managed_by_name : String → List ListedContainer → Option ServiceState
  find_managed_by_name name containers = inspect_match (find (is_match name) containers)

  abbrev pub update_of : DockerEvent → ContainerLifecycleAction → ServiceState → ServiceUpdate
  update_of event action state = record {
    service = service_key state.project state.service;
    state = state;
    occurred_at = now;
    action = action;
    exit_code = exit_code_of action (lookup "exitCode" event.attributes);
  }

  abbrev pub publish_id :
      Option String → DockerEvent → ContainerLifecycleAction → Option ServiceUpdate
  publish_id none event action = none
  publish_id (some id) event action =
      if id == ""
      then none
      else some
          (update_of event action (or_else (inspect_state id) (synthetic id event.attributes)))

  unfoldable pub publish_from_event : DockerEvent → ContainerLifecycleAction → Option ServiceUpdate
  publish_from_event event action = publish_id (id_of event) event action

  abbrev pub handle_action : Option ContainerLifecycleAction → DockerEvent → Option ServiceUpdate
  handle_action none event = none
  handle_action (some action) event =
      if is_managed projects event.attributes then publish_from_event event action else none

  -- `event` is what `JSON.parse` makes of a line.
  unfoldable pub handle_event : Option DockerEvent → Option ServiceUpdate
  handle_event none = none
  handle_event (some event) = handle_action (action_of event.action) event
