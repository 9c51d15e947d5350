-- ===== src/Web/Client/Tests.antt =====
-- Answers of the api, and what is shown of them.
use core_dashboard.Prelude.{ℕ, String, ◌≡◌, ◌↔◌, refl, false, none, some, List, [], ◌∷◌}
use core_dashboard.Shared.Fetch.{Answer, response}
use core_dashboard.Web.Client.{
  Body, several, join, fetched, fetch_alerts, fetch_security_audit, fetch_taskforge_status,
  fetch_dependencies_health, fetch_series, api_error, broken, error_text, shown,
}
use core_dashboard.Web.Client.Outcomes.{is_success, IsErrorText, shown-fetch_alerts}

abbrev show : ℕ → String
show n = "400"

abbrev refused : Answer (Body (List ℕ))
refused = response 400 (some (record { content = []; message = several ("limit" ∷ "offset" ∷ []) }))

shown-refused : shown "error" (some (fetch_alerts show [] refused)) ≡ error_text "limit, offset"
unfolding shown fetch_alerts join
shown-refused = refl

shown-fetch_alerts_case :
    IsErrorText (shown "error" (some (fetch_alerts show [] refused))) ↔ (is_success refused ≡ false)
shown-fetch_alerts_case = shown-fetch_alerts show [] "error" refused

fetch_taskforge_status-no_json :
    fetch_taskforge_status show {A = ℕ} 0 (response 502 none) ≡ api_error "HTTP 400" 502
unfolding fetch_taskforge_status
fetch_taskforge_status-no_json = refl

fetch_series-no_json : fetch_series {A = ℕ} (response 200 none) ≡ broken
unfolding fetch_series
fetch_series-no_json = refl

fetch_dependencies_health-good :
    fetch_dependencies_health {A = ℕ} (response 200 (some 3)) ≡ fetched 3
unfolding fetch_dependencies_health
fetch_dependencies_health-good = refl

fetch_security_audit-good : fetch_security_audit show {A = ℕ} 0 (response 200 none) ≡ fetched 0
unfolding fetch_security_audit
fetch_security_audit-good = refl
