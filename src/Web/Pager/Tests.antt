-- ===== src/Web/Pager/Tests.antt =====
-- The pages, on concrete lists.
use core_dashboard.Prelude.{
  String, trim, ℕ, ◌≡◌, refl, Bool, true, false, Option, none, some, List, [], ◌∷◌, take, drop,
  replicate, arith, codes,
}
use core_dashboard.Shared.Auth.{AuthUser, admin, anonymous, has_role}
use core_dashboard.Shared.Events.{AlertType, deploy, job_dlq}
use core_dashboard.Web.Pager.{
  page_size, next, prev, has_next, AlertsFilters, AlertsFeedPanel, SecurityAuditFilters,
  SecurityAuditPanel, filters_of, select_type, on_new_alert, query, select_action, type_user_id,
}
use core_dashboard.Shared.Values.{natural}
use core_dashboard.Audit.{security_request}
use core_dashboard.Web.Pager.Access.{header_of, query-security_request}
use core_dashboard.Web.Pager.Walk.{walk, walk-rows, Feed, matching, on_new_alert-list}

abbrev rows : List ℕ
rows = replicate 45 7

abbrev list : ℕ → ℕ → List ℕ
list limit offset = take limit (drop offset rows)

walk-rows_case : walk rows list (λ limit offset. refl) 2 0 ≡ rows
walk-rows_case = walk-rows rows list (λ limit offset. refl) 2 (omega arith)

prev_next : prev (next 45 20) ≡ 20
unfolding prev next has_next
prev_next = refl

abbrev same : AlertType → AlertType → Bool
same deploy deploy = true
same job_dlq job_dlq = true
same _ _ = false

abbrev feed : Feed ℕ
feed = (deploy, 1) ∷ (job_dlq, 2) ∷ []

abbrev alerts : Feed ℕ → AlertsFilters → Feed ℕ
alerts feed f = take f.limit (drop f.offset (matching same f.type feed))

abbrev panel : AlertsFeedPanel
panel = select_type (some job_dlq) (record { type = none; offset = 40 })

on_new_alert-list_case :
    alerts ((deploy, 3) ∷ feed) (filters_of panel) ≡ alerts feed (filters_of panel)
unfolding on_new_alert
on_new_alert-list_case =
    on_new_alert-list same alerts (λ feed f. refl) feed (deploy, 3) panel refl refl

query-anonymous :
    query anonymous (some "token") (
      type_user_id
        (codes " 7 ")
        (select_action none (record { action = none; user_id = []; skip = 20 })))
    ≡ none
unfolding query has_role
query-anonymous = refl

abbrev administrator : AuthUser
administrator = record { sub = some "u1"; email = none; role = admin }

abbrev log : SecurityAuditPanel
log = record { action = none; user_id = codes " 7 "; skip = 20 }

abbrev asked : SecurityAuditFilters
asked = record { action = none; user_id = some (codes "7"); skip = 20; take = page_size }

abbrev signed_in : Option String
signed_in = some "token"

query-asked : query administrator signed_in log ≡ some (asked, "token")
unfolding query has_role trim
query-asked = refl

query-security_request_case :
    (has_role administrator admin ≡ true)
    × (signed_in ≡ some "token")
    × (security_request (header_of "token") (some (natural 20)) (some (natural page_size))
        ≡ some ((page_size, 20), codes "token"))
query-security_request_case =
    query-security_request administrator signed_in log asked "token" query-asked
