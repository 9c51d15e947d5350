-- ===== src/Web/Pager.antt =====
-- The paging of the two panels (apps/web/src/components/alerts-feed-panel.tsx and
-- security-audit-panel.tsx): which page they ask for.
pub mod Walk
pub mod Access
mod Tests
use core_dashboard.Prelude.{
  ℕ, ◌+◌, ◌-◌, max, String, Bool, true, false, not, ◌&&◌, ◌||◌, Option, none, some, List, [], ◌∷◌,
  ◌++◌, if◌then◌else◌, leb, length, ◌==◌, number_equality, Text, trim, is_space, text_equality,
}
use core_dashboard.Shared.Auth.{AuthUser, admin, has_role}
use core_dashboard.Shared.Events.{AlertType}

abbrev pub page_size : ℕ
page_size = 20

abbrev pub fallback_refresh_ms : ℕ
fallback_refresh_ms = 60000

-- The two buttons; a disabled one does nothing.
unfoldable pub prev : ℕ → ℕ
prev offset = if offset == 0 then offset else max 0 (offset - page_size)

unfoldable pub has_next : ℕ → ℕ → Bool
has_next total offset = not (leb total (offset + page_size))

unfoldable pub next : ℕ → ℕ → ℕ
next total offset = if has_next total offset then offset + page_size else offset

pub record AlertsFilters : Type 0 where
  pub type : Option AlertType
  pub limit : ℕ
  pub offset : ℕ

pub record AlertsFeedPanel : Type 0 where
  pub type : Option AlertType
  pub offset : ℕ

abbrev pub filters_of : AlertsFeedPanel → AlertsFilters
filters_of s = record { type = s.type; limit = page_size; offset = s.offset }

abbrev pub select_type : Option AlertType → AlertsFeedPanel → AlertsFeedPanel
select_type type s = record { type = type; offset = 0 }

-- `type === "" || type === incoming`.
abbrev pub concerns : (AlertType → AlertType → Bool) → Option AlertType → AlertType → Bool
concerns same none incoming = true
concerns same (some type) incoming = same type incoming

-- Whether an alert that is pushed makes the panel ask for its page again.
unfoldable pub on_new_alert : (AlertType → AlertType → Bool) → AlertType → AlertsFeedPanel → Bool
on_new_alert same incoming s = s.offset == 0 && concerns same s.type incoming

pub record SecurityAuditFilters : Type 0 where
  pub action : Option String
  pub user_id : Option Text
  pub skip : ℕ
  pub take : ℕ

pub record SecurityAuditPanel : Type 0 where
  pub action : Option String
  pub user_id : Text
  pub skip : ℕ

abbrev pub select_action : Option String → SecurityAuditPanel → SecurityAuditPanel
select_action action s = record s { action = action; skip = 0 }

abbrev pub type_user_id : Text → SecurityAuditPanel → SecurityAuditPanel
type_user_id user_id s = record s { user_id = user_id; skip = 0 }

-- `userId.trim() || undefined`.
abbrev pub non_empty : Text → Option Text
non_empty [] = none
non_empty (c ∷ s) = some (c ∷ s)

-- The query runs for an administrator with a token only.
abbrev pub query_with :
    Bool → Option String → SecurityAuditPanel → Option (SecurityAuditFilters × String)
query_with true (some token) s = some (
  record {
    action = s.action;
    user_id = non_empty (trim s.user_id);
    skip = s.skip;
    take = page_size;
  },
  token,
)
query_with _ _ s = none

unfoldable pub query :
    AuthUser → Option String → SecurityAuditPanel → Option (SecurityAuditFilters × String)
query user token s = query_with (has_role user admin) token s
