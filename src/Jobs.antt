-- ===== src/Jobs.antt =====
-- apps/api/src/jobs: the demonstration job and its record (jobs.service.ts); `Jobs/Token.antt` is
-- the client's access token. What taskforge and the database answer are arguments.
pub mod Token
pub mod Runs
pub mod Listing
mod Tests
use Prim.Native.String
use core_dashboard.Prelude.{
  ℕ, String, Bool, true, false, ◌||◌, Option, none, some, List, [], ◌∷◌, ◌==◌, string_equality,
  if◌then◌else◌, ltb, leb, min, map, take,
}
use core_dashboard.Shared.Auth.{AuthUser}
use core_dashboard.Shared.Fetch.{Answer, Outcome, not_configured, exchange, is_set}
use core_dashboard.Shared.Maps.{lookup, insert}
use core_dashboard.Shared.Sorting.{sort}
use core_dashboard.Shared.Values.{Number, natural, negative, other}

abbrev pub default_steps : ℕ
default_steps = 5

abbrev pub max_steps : ℕ
max_steps = 20

pub data JobRunStatus : Type 0 where
  pending running completed failed : JobRunStatus

abbrev pub same_status : JobRunStatus → JobRunStatus → Bool
same_status pending pending = true
same_status running running = true
same_status completed completed = true
same_status failed failed = true
same_status _ _ = false

unfoldable pub map_state : String → JobRunStatus
map_state state =
    if state == "active"
    then running
    else if state == "completed"
    then completed
    else if state == "failed" || state == "dlq"
    then failed
    else pending

unfoldable pub clamp_steps : Option Number → ℕ
clamp_steps (some (natural value)) = if ltb value 1 then default_steps else min value max_steps
clamp_steps _ = default_steps

pub record JobRun : Type 0 where
  pub external_id : String
  pub status : JobRunStatus
  pub requested_by : String
  pub created_at : ℕ

-- What taskforge answers to a job: its id and its state.
pub record EnqueuedJob : Type 0 where
  pub job_id : String
  pub state : String

abbrev pub requester : Option String → String
requester none = "unknown"
requester (some sub) = sub

-- The steps that taskforge is asked for, and the row that is created if it answers with a job: its
-- `createdAt` is the database's default, the time.
unfoldable pub trigger_demo : AuthUser → Option Number → ℕ → Option EnqueuedJob → ℕ × Option JobRun
trigger_demo user steps now none = (clamp_steps steps, none)
trigger_demo user steps now (some job) = (
  clamp_steps steps,
  some (record {
    external_id = job.job_id;
    status = map_state job.state;
    requested_by = requester user.sub;
    created_at = now;
  }),
)

-- The body of `TaskforgeClient.enqueueDemoJob`: `show` is how a number is written, and `random` the
-- six characters that `Math.random` gives.
pub record DemoJob : Type 0 where
  pub name : String
  pub steps : ℕ
  pub idempotency_key : String

abbrev pub enqueue_demo_job : (ℕ → String) → ℕ → String → ℕ → DemoJob
enqueue_demo_job show now random steps = record {
  name = "core-dashboard-metrics-report";
  steps = steps;
  idempotency_key = String.◌++◌ "core-dashboard-" (String.◌++◌ (show now) (String.◌++◌ "-" random));
}

abbrev pub list_limit : ℕ
list_limit = 100

abbrev pub newest_first : JobRun → JobRun → Bool
newest_first a b = leb b.created_at a.created_at

unfoldable pub list : List (String × JobRun) → List JobRun
list runs = take list_limit (sort newest_first (map (λ row. row.1) runs))

-- What `refreshStatus` returns, and the table after it.
pub data Refreshed : Type 0 where
  not_found : Refreshed
  found : JobRun → List (String × JobRun) → Refreshed

abbrev pub refresh_to : String → JobRun → JobRunStatus → Bool → List (String × JobRun) → Refreshed
refresh_to id run next stored runs =
    let changed = record run { status = next } in
    if same_status next run.status
    then found run runs
    else if stored
    then found changed (insert id changed runs)
    else found run runs

abbrev pub refresh_run :
    String → Option JobRun → Option String → Bool → List (String × JobRun) → Refreshed
refresh_run id none state stored runs = not_found
refresh_run id (some run) none stored runs = found run runs
refresh_run id (some run) (some state) stored runs = refresh_to id run (map_state state) stored runs

-- `state` is taskforge's answer, if it gives one, and `stored` whether the update succeeds.
unfoldable pub refresh_status : String → Option String → Bool → List (String × JobRun) → Refreshed
refresh_status id state stored runs = refresh_run id (lookup id runs) state stored runs

-- `TaskforgeClient.request`, on `TASKFORGE_URL` and what `fetch` gives.
unfoldable pub request {ℓ} : {B : Type ℓ} → B → Option String → Answer B → Outcome B
request empty base_url answer = if is_set base_url then exchange empty answer else not_configured
