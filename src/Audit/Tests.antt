-- ===== src/Audit/Tests.antt =====
-- The theorems on the listings, at concrete rows.
use core_dashboard.Prelude.{
  ℕ, ◌+◌, ◌≤◌, String, ◌≡◌, refl, Bool, true, none, some, List, [], ◌∷◌, ◌++◌, length,
}
use core_dashboard.Shared.Sorting.{sort, insert_sorted, IsSorted}
use core_dashboard.Audit.{
  AuditLog, AuditLogFilters, list, matches, JobRecordItem, recent_of, recent_failures_limit,
}
use core_dashboard.Audit.Pages.{list-append, recent_of-IsSorted}

abbrev filters : AuditLogFilters
filters = record {
  action = some "restart";
  target = none;
  user_sub = some "";
  limit = 50;
  offset = 0;
}

abbrev row : ℕ → AuditLog
row at = record { action = "restart"; target = "web"; user_sub = "u1"; created_at = at }

abbrev table : List AuditLog
table = row 1 ∷ row 3 ∷ row 2 ∷ []

list-table : (list (record filters { limit = 2 }) table).entries ≡ row 3 ∷ row 2 ∷ []
unfolding list matches sort insert_sorted
list-table = refl

list-append_case :
    ((list (record filters { limit = 2 + 1 }) table).entries
      ≡ (list (record filters { limit = 2 }) table).entries
        ++ (list (record filters { limit = 1; offset = 0 + 2 }) table).entries)
    × ((list (record filters { limit = 2 + 1 }) table).total
        ≡ (list (record filters { limit = 1; offset = 0 + 2 }) table).total)
list-append_case = list-append filters 2 1 table

abbrev item : JobRecordItem
item = record { job_id = "7"; updated_at = "2026-01-01" }

-- An order that does not tell times apart.
abbrev any_order : String → String → Bool
any_order a b = true

recent_of-IsSorted_case :
    (length (recent_of any_order (item ∷ []) (item ∷ [])) ≤ recent_failures_limit)
    × IsSorted
        (λ (a b : JobRecordItem). any_order a.updated_at b.updated_at)
        (recent_of any_order (item ∷ []) (item ∷ []))
recent_of-IsSorted_case =
    recent_of-IsSorted any_order (λ a b c h k. refl) (λ a b h. refl) (item ∷ []) (item ∷ [])
