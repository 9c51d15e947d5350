-- ===== src/Web/Dashboard/Shown.antt =====
-- The parts of the page that have no control.
use core_dashboard.Prelude.{
  ℕ, String, Bool, Option, none, some, List, [], ◌∷◌, ◌++◌, ltb, not, ◌==◌, string_equality,
}
use core_dashboard.Shared.Auth.{AuthUser, operator, has_role}
use core_dashboard.Shared.Fetch.{is_set}
use core_dashboard.Shared.Events.{LogLine, ServiceState}
use core_dashboard.Web.View.Silence.{
  IsSilent, nothing, showing, append-IsSilent, each-IsSilent, if-IsSilent,
}
use core_dashboard.Web.Query.{QueryError, Query}
use core_dashboard.Web.Sync.{ConnectionStatus}
use core_dashboard.Web.ContainerLogs.{ContainerLogs}
use core_dashboard.Web.Badges as Badges
use core_dashboard.Web.ServiceCard as ServiceCard
use core_dashboard.Web.LogViewer as LogViewer
use core_dashboard.Web.QueueStatus as QueueStatus

module _ (A : Type 0) where
  dependencies_view-IsSilent :
      (query : Query (List Badges.DependencyCheck))
      → IsSilent {A = A} (Badges.dependencies_view query)
  unfolding Badges.dependencies_view
  dependencies_view-IsSilent query =
      each-IsSilent Badges.dependency_view (Badges.dependencies_of query.content)
        (λ dep. showing nothing)

  -- The badges of the header.
  pub badges-IsSilent :
      (query : Query (List Badges.DependencyCheck)) (status : ConnectionStatus)
      → IsSilent {A = A} (Badges.dependencies_view query ++ Badges.connection_view status)
  unfolding Badges.connection_view
  badges-IsSilent query status =
      append-IsSilent (dependencies_view-IsSilent query) (showing nothing)

  pub card-IsSilent :
      (state : ServiceState) (now : ℕ) → IsSilent {A = A} (ServiceCard.details state now)
  card-IsSilent state now = showing (showing (showing (showing (showing nothing))))

  list_view-IsSilent : (lines : List LogLine) → IsSilent {A = A} (LogViewer.list_view lines)
  list_view-IsSilent [] = showing nothing
  list_view-IsSilent (line ∷ lines) =
      each-IsSilent LogViewer.line_view (line ∷ lines) (λ l. showing (showing nothing))

  lines_view-IsSilent :
      (error : Option String) (lines : List LogLine)
      → IsSilent {A = A} (LogViewer.lines_view error lines)
  lines_view-IsSilent none lines = list_view-IsSilent lines
  lines_view-IsSilent (some error) lines =
      if-IsSilent (error == "") (list_view-IsSilent lines) (showing nothing)

  pub viewer-IsSilent :
      (pinned : Bool) (s : ContainerLogs) → IsSilent {A = A} (LogViewer.view pinned s)
  unfolding LogViewer.view
  viewer-IsSilent pinned s = append-IsSilent (lines_view-IsSilent s.error s.buffer.lines) (
      showing (
        append-IsSilent (if-IsSilent (not pinned) (showing nothing) nothing)
          (if-IsSilent (ltb 0 s.buffer.dropped) (showing nothing) nothing)))

  counts_view-IsSilent :
      (error : Option QueryError) (is_loading : Bool)
      (status : Option QueueStatus.TaskforgeQueueStatus)
      → IsSilent {A = A} (QueueStatus.counts_view error is_loading status)
  counts_view-IsSilent (some e) is_loading status = showing nothing
  counts_view-IsSilent none is_loading none = showing nothing
  counts_view-IsSilent none is_loading (some status) = if-IsSilent is_loading (showing nothing) (
      each-IsSilent (QueueStatus.count_view status.counts) QueueStatus.taskforge_job_states
        (λ state. showing (showing nothing)))

  reason_view-IsSilent :
      (reason : Option String) → IsSilent {A = A} (QueueStatus.reason_view reason)
  reason_view-IsSilent none = nothing
  reason_view-IsSilent (some reason) = if-IsSilent (is_set (some reason)) (showing nothing) nothing

  failures_view-IsSilent :
      (jobs : List QueueStatus.TaskforgeJobRecord)
      → IsSilent {A = A} (QueueStatus.failures_view jobs)
  failures_view-IsSilent [] = nothing
  failures_view-IsSilent (job ∷ jobs) = showing (
      each-IsSilent QueueStatus.failure_view (job ∷ jobs)
        (λ j. showing (showing (showing (reason_view-IsSilent j.failed_reason)))))

  pub queue-IsSilent :
      (user : AuthUser) (query : Query QueueStatus.TaskforgeQueueStatus)
      → IsSilent {A = A} (QueueStatus.view user query)
  unfolding QueueStatus.view
  queue-IsSilent user query =
      if-IsSilent (has_role user operator)
        (showing (
          append-IsSilent (counts_view-IsSilent query.error query.is_loading query.content)
            (failures_view-IsSilent (QueueStatus.recent_failures_of query.content))))
        nothing
