-- ===== src/Web/QueueStatus.antt =====
-- apps/web/src/components/taskforge-status-panel.tsx: the panel of the queue, for operators.
use core_dashboard.Prelude.{
  ℕ, String, Bool, true, false, ◌&&◌, Option, none, some, List, [], ◌∷◌, ◌++◌, ◌==◌,
  string_equality, if◌then◌else◌,
}
use core_dashboard.Shared.Auth.{AuthUser, operator, has_role}
use core_dashboard.Shared.Fetch.{is_set}
use core_dashboard.Web.View.{
  count, literal, number, message, Tone, plain, muted, success, warning, danger, text, View, each,
  when,
}
use core_dashboard.Web.Query.{QueryError, Query, error_label}
use Prim.Native.String

abbrev pub refresh_ms : ℕ
refresh_ms = 15000

pub data TaskforgeJobState : Type 0 where
  queued delayed active completed failed dlq : TaskforgeJobState

abbrev pub taskforge_job_states : List TaskforgeJobState
taskforge_job_states = queued ∷ active ∷ delayed ∷ completed ∷ failed ∷ dlq ∷ []

abbrev pub state_tone : TaskforgeJobState → Tone
state_tone queued = muted
state_tone delayed = muted
state_tone active = warning
state_tone completed = success
state_tone failed = danger
state_tone dlq = danger

abbrev pub state_name : TaskforgeJobState → String
state_name queued = "queued"
state_name delayed = "delayed"
state_name active = "active"
state_name completed = "completed"
state_name failed = "failed"
state_name dlq = "dlq"

pub record TaskforgeJobRecord : Type 0 where
  pub job_id : String
  pub name : String
  pub state : String
  pub attempts_made : ℕ
  pub failed_reason : Option String

pub record TaskforgeQueueStatus : Type 0 where
  pub counts : TaskforgeJobState → ℕ
  pub recent_failures : List TaskforgeJobRecord

-- `STATE_TONE[job.state] ?? "text-cci-muted"`, on the names of the states.
unfoldable pub tone_of : String → List TaskforgeJobState → Tone
tone_of state [] = muted
tone_of state (s ∷ states) = if state == state_name s then state_tone s else tone_of state states

-- `accessToken !== null`.
abbrev is_given : Option String → Bool
is_given none = false
is_given (some token) = true

-- Whether the query runs.
unfoldable pub enabled : AuthUser → Option String → Bool
enabled user token = has_role user operator && is_given token

abbrev pub recent_failures_of : Option TaskforgeQueueStatus → List TaskforgeJobRecord
recent_failures_of none = []
recent_failures_of (some status) = status.recent_failures

module _ {A : Type 0} where
  abbrev pub count_view : (TaskforgeJobState → ℕ) → TaskforgeJobState → View A
  count_view counts state =
      text (state_tone state) (number (counts state))
      ∷ text muted (message (String.◌++◌ "taskforgeStatus.state." (state_name state)) [])
      ∷ []

  abbrev pub reason_view : Option String → View A
  reason_view none = []
  reason_view (some reason) = when (is_set (some reason)) (text muted (literal reason) ∷ [])

  abbrev pub failure_view : TaskforgeJobRecord → View A
  failure_view job =
      text (tone_of job.state taskforge_job_states) (literal job.state)
      ∷ text plain (literal job.name)
      ∷ text muted (message "taskforgeStatus.attempts" (("count", count job.attempts_made) ∷ []))
      ∷ reason_view job.failed_reason

  abbrev pub failures_view : List TaskforgeJobRecord → View A
  failures_view [] = []
  failures_view (job ∷ jobs) =
      text muted (message "taskforgeStatus.recentFailures" []) ∷ each failure_view (job ∷ jobs)

  abbrev pub counts_view : Option QueryError → Bool → Option TaskforgeQueueStatus → View A
  counts_view (some e) is_loading status = text danger (error_label "taskforgeStatus.error" e) ∷ []
  counts_view none is_loading none = text muted (message "taskforgeStatus.loading" []) ∷ []
  counts_view none is_loading (some status) =
      if is_loading
      then text muted (message "taskforgeStatus.loading" []) ∷ []
      else each (count_view status.counts) taskforge_job_states

  unfoldable pub view : AuthUser → Query TaskforgeQueueStatus → View A
  view user query =
      if has_role user operator
      then text plain (message "taskforgeStatus.title" [])
          ∷ counts_view query.error query.is_loading query.content
        ++ failures_view (recent_failures_of query.content)
      else []
