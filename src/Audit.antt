-- ===== src/Audit.antt =====
-- apps/api/src/audit, security-audit, retention and taskforge-status: the listings and
-- summaries that the api reads from its tables and from the other services, and the purge. The
-- tables, the answers and the clock are arguments; the order of `localeCompare` is a parameter.
pub mod Pages
pub mod Retention
mod Tests
use core_dashboard.Prelude.{
  ℕ, ◌-◌, ◌*◌, String, Bool, true, false, ◌&&◌, ◌||◌, Option, none, some, List, [], ◌∷◌, ◌++◌,
  filter, take, drop, length, leb, ltb, ◌==◌, string_equality, if◌then◌else◌, Text,
}
use core_dashboard.Shared.Fetch.{
  is_set, Answer, rejected, response, is_ok, Outcome, not_configured, exchange,
}
use core_dashboard.Shared.Sorting.{sort}
use core_dashboard.Shared.Values.{Number}
use core_dashboard.Auth.{extract_token}
use core_dashboard.Alerts.Settings.{parse_non_negative_int, check_limit}

pub record AuditLog : Type 0 where
  pub action : String
  pub target : String
  pub user_sub : String
  pub created_at : ℕ

pub record AuditLogFilters : Type 0 where
  pub action : Option String
  pub target : Option String
  pub user_sub : Option String
  pub limit : ℕ
  pub offset : ℕ

pub record AuditLogPage : Type 0 where
  pub entries : List AuditLog
  pub total : ℕ

-- A filter that is absent or empty lets everything pass.
abbrev pub passes : Option String → String → Bool
passes none value = true
passes (some wanted) value = if wanted == "" then true else value == wanted

unfoldable pub matches : AuditLogFilters → AuditLog → Bool
matches filters row =
    passes filters.action row.action
    && passes filters.target row.target
    && passes filters.user_sub row.user_sub

abbrev pub newest_first : AuditLog → AuditLog → Bool
newest_first a b = leb b.created_at a.created_at

unfoldable pub list : AuditLogFilters → List AuditLog → AuditLogPage
list filters table = record {
  entries =
      take filters.limit (drop filters.offset (sort newest_first (filter (matches filters) table)));
  total = length (filter (matches filters) table);
}

-- The limit and the offset of `AuditController.list`, and `take` and `skip` of the security log:
-- 50 and 0 where they are absent.
abbrev pub page_of : Option ℕ → Option ℕ → Option (ℕ × ℕ)
page_of (some limit) (some offset) = some (limit, offset)
page_of _ _ = none

unfoldable pub page : Option Number → Option Number → Option (ℕ × ℕ)
page limit_raw offset_raw =
    page_of (check_limit (parse_non_negative_int limit_raw 50))
      (parse_non_negative_int offset_raw 0)

-- `SecurityAuditService.list`: the request to the authentication service, and the token that is
-- passed on from the header.
unfoldable pub security_list {ℓ} : {B : Type ℓ} → B → Option String → Answer B → Outcome B
security_list empty base_url answer =
    if is_set base_url then exchange empty answer else not_configured

unfoldable pub forwarded_token : Option Text → Option Text
forwarded_token header = extract_token header

-- `SecurityAuditController.list` up to the service: 400 and 401 are none.
abbrev pub with_token : Option (ℕ × ℕ) → Option Text → Option ((ℕ × ℕ) × Text)
with_token (some window) (some token) = some (window, token)
with_token _ _ = none

unfoldable pub security_request :
    Option Text → Option Number → Option Number → Option ((ℕ × ℕ) × Text)
security_request header skip take = with_token (page take skip) (forwarded_token header)

-- `RetentionService`: what is left of a table.
abbrev pub cutoff : ℕ → ℕ
cutoff now = now - 30 * 24 * 3600000

unfoldable pub purge {ℓ} : {A : Type ℓ} → (A → ℕ) → ℕ → List A → List A
purge created_at now table = filter (λ row. leb (cutoff now) (created_at row)) table

-- `RetentionService.purgeTick`: each of the two tables is purged unless its request fails; the counts
-- are logged if both succeed and one is not 0, and a failure is only logged.
abbrev pub deleted {ℓ} : {A : Type ℓ} → (A → ℕ) → ℕ → List A → ℕ
deleted created_at now table = length (filter (λ row. ltb (created_at row) (cutoff now)) table)

pub data Logged : Type 0 where
  nothing_logged failure_logged : Logged
  counts_logged : ℕ → ℕ → Logged

abbrev pub log_of : Bool → ℕ → ℕ → Logged
log_of true audit_logs job_runs =
    if ltb 0 audit_logs || ltb 0 job_runs then counts_logged audit_logs job_runs else nothing_logged
log_of false audit_logs job_runs = failure_logged

unfoldable pub purge_tick {ℓ κ} :
    {A : Type ℓ} {B : Type κ}
    → (A → ℕ)
    → (B → ℕ)
    → ℕ
    → Bool
    → Bool
    → List A
    → List B
    → (List A × List B) × Logged
purge_tick audited_at run_at now audit_ok runs_ok audit_logs job_runs = (
  (
    if audit_ok then purge audited_at now audit_logs else audit_logs,
    if runs_ok then purge run_at now job_runs else job_runs,
  ),
  log_of (audit_ok && runs_ok) (deleted audited_at now audit_logs) (deleted run_at now job_runs),
)

pub data TaskforgeJobState : Type 0 where
  queued active delayed completed failed dlq : TaskforgeJobState

pub record JobRecordItem : Type 0 where
  pub job_id : String
  pub updated_at : String

pub record JobRecordPage : Type 0 where
  pub total : ℕ
  pub items : List JobRecordItem

pub record QueueStatus : Type 0 where
  pub counts : List (TaskforgeJobState × ℕ)
  pub recent_failures : List JobRecordItem

abbrev pub recent_failures_limit : ℕ
recent_failures_limit = 10

abbrev pub taskforge_job_states : List TaskforgeJobState
taskforge_job_states = queued ∷ active ∷ delayed ∷ completed ∷ failed ∷ dlq ∷ []

-- The totals, unless a request fails.
unfoldable pub counts_of :
    (TaskforgeJobState → Option JobRecordPage)
    → List TaskforgeJobState
    → Option (List (TaskforgeJobState × ℕ))
counts_of pages [] = some []
counts_of pages (state ∷ states) = elim (pages state) [
  | none ↦ none
  | some found ↦ elim (counts_of pages states) [
    | none ↦ none
    | some counts ↦ some ((state, found.total) ∷ counts)
  ]
]

-- `newer` is `b.updatedAt.localeCompare(a.updatedAt) <= 0`.
unfoldable pub recent_of :
    (String → String → Bool) → List JobRecordItem → List JobRecordItem → List JobRecordItem
recent_of newer failures dead =
    take recent_failures_limit (sort (λ a b. newer a.updated_at b.updated_at) (failures ++ dead))

abbrev pub status_of :
    (String → String → Bool)
    → Option (List (TaskforgeJobState × ℕ))
    → Option JobRecordPage
    → Option JobRecordPage
    → Option QueueStatus
status_of newer (some counts) (some failures) (some dead) =
    some (record { counts = counts; recent_failures = recent_of newer failures.items dead.items })
status_of newer _ _ _ = none

-- `single` answers the requests for a total, and `several` those for the failures.
unfoldable pub get_status :
    (String → String → Bool)
    → (TaskforgeJobState → Option JobRecordPage)
    → (TaskforgeJobState → Option JobRecordPage)
    → Option QueueStatus
get_status newer single several =
    status_of newer (counts_of single taskforge_job_states) (several failed) (several dlq)
