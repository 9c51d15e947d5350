-- ===== src/Metrics/Prometheus/Tests.antt =====
-- Queries and answers of Prometheus.
use core_dashboard.Prelude.{ℕ, ◌≡◌, refl, none, some, [], ◌∷◌, Text, codes}
use core_dashboard.Shared.Fetch.{response}
use core_dashboard.Metrics.{known, memory, inherited, live_query, live_range}
use core_dashboard.Metrics.Prometheus.{query_range, live_url, request_result}

abbrev show : ℕ → Text
show n = n ∷ []

abbrev json : Text → Text
json s = b'"' ∷ codes "web\""

live_url-memory :
    (live_url show json (codes "web") (known memory) 60 7200000).params
    ≡ ("query", codes "container_memory_working_set_bytes{name=\"web\"}")
      ∷ ("start", 3600 ∷ [])
      ∷ ("end", 7200 ∷ [])
      ∷ ("step", 30 ∷ [])
      ∷ []
unfolding live_url query_range live_query live_range
live_url-memory = refl

-- A name that every object inherits is asked for as `undefined`.
live_url-inherited :
    live_url show json (codes "web") inherited 60 7200000
    ≡ query_range show (codes "undefined") (live_range 7200000 60)
unfolding live_url live_query
live_url-inherited = refl

request_result-failed :
    request_result {A = ℕ} (response 200 (some (record { status = "error"; result = none }))) ≡ none
unfolding request_result
request_result-failed = refl
