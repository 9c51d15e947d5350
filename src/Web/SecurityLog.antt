-- ===== src/Web/SecurityLog.antt =====
-- apps/web/src/components/security-audit-panel.tsx: what the panel renders and what its controls
-- do. The role decides whether there is a panel; what it asks for is in Pager.
use core_dashboard.Prelude.{
  ℕ, ◌+◌, ◌-◌, String, Option, none, some, List, [], ◌∷◌, ◌++◌, map, Text, max, string_equality,
  if◌then◌else◌,
}
use core_dashboard.Shared.Auth.{AuthUser, admin, has_role}
use core_dashboard.Shared.Fetch.{is_set}
use core_dashboard.Web.View.{
  literal, letters, message, plain, muted, chosen, text, choice, field, View, each, when,
}
use core_dashboard.Web.Query.{Query, body_view, pages_view}
use core_dashboard.Web.AlertsFeed.{moment_of}
use core_dashboard.Web.Pager.{page_size, SecurityAuditPanel, select_action, type_user_id}
use Prim.Native.String

-- The names are those of `AuditAction` of cci-auth-service.
abbrev pub security_audit_actions : List String
security_audit_actions =
    "USER_REGISTERED" ∷ "EMAIL_VERIFIED" ∷ "EMAIL_VERIFICATION_RESENT" ∷ "LOGIN_SUCCEEDED"
    ∷ "LOGIN_FAILED" ∷ "LOGOUT" ∷ "TOKEN_REUSE_DETECTED" ∷ "SESSION_REVOKED"
    ∷ "PASSWORD_RESET_REQUESTED" ∷ "PASSWORD_RESET_COMPLETED" ∷ "OAUTH_LOGIN"
    ∷ "OAUTH_ACCOUNT_LINKED" ∷ "ROLES_UPDATED" ∷ "TWO_FACTOR_ENABLED" ∷ "TWO_FACTOR_DISABLED"
    ∷ "TWO_FACTOR_BACKUP_CODE_USED" ∷ "TWO_FACTOR_BACKUP_CODES_REGENERATED" ∷ "CLIENT_TOKEN_ISSUED"
    ∷ "CLIENT_TOKEN_REJECTED" ∷ []

pub record SecurityAuditEvent : Type 0 where
  pub id : String
  pub action : String
  pub user_id : Option String
  pub actor_id : Option String
  pub ip : Option String
  pub created_at : Text

pub record SecurityAuditPage : Type 0 where
  pub total : ℕ
  pub events : List SecurityAuditEvent

pub data Action : Type 0 where
  pick_action : Option String → Action
  write_user_id : Text → Action
  to_prev to_next : Action

unfoldable pub act : Action → SecurityAuditPanel → SecurityAuditPanel
act (pick_action action) s = select_action action s
act (write_user_id user_id) s = type_user_id user_id s
act to_prev s = record s { skip = max 0 (s.skip - page_size) }
act to_next s = record s { skip = s.skip + page_size }

-- `{value && <span>{prefix}{value}</span>}`.
abbrev pub optional : String → Option String → View Action
optional prefix none = []
optional prefix (some value) =
    when (is_set (some value)) (text muted (literal (String.◌++◌ prefix value)) ∷ [])

abbrev pub entry : SecurityAuditEvent → View Action
entry event =
    text muted (letters (moment_of event.created_at))
      ∷ text chosen (literal event.action)
      ∷ optional "user:" event.user_id
    ++ (optional "by:" event.actor_id ++ optional "" event.ip)

abbrev pub total_of : Option SecurityAuditPage → ℕ
total_of none = 0
total_of (some page) = page.total

abbrev pub events_of : Option SecurityAuditPage → List SecurityAuditEvent
events_of none = []
events_of (some page) = page.events

unfoldable pub panel_view : Query SecurityAuditPage → SecurityAuditPanel → View Action
panel_view query s =
    text plain (message "securityAudit.title" [])
      ∷ choice (
          (message "securityAudit.allActions" [], pick_action none)
          ∷ map (λ action. (literal action, pick_action (some action))) security_audit_actions)
      ∷ field (message "securityAudit.userIdPlaceholder" []) s.user_id write_user_id
      ∷ body_view ("securityAudit.error", "securityAudit.loading", "securityAudit.empty")
          query.error query.is_loading (each entry) (events_of query.content)
    ++ pages_view ("securityAudit.total", "securityAudit.prev", "securityAudit.next")
        (total_of query.content) s.skip to_prev to_next

unfoldable pub view : AuthUser → Query SecurityAuditPage → SecurityAuditPanel → View Action
view user query s = if has_role user admin then panel_view query s else []
