-- ===== src/Metrics/Prometheus.antt =====
-- apps/api/src/metrics/prometheus.service.ts: the two queries and the reading of the answer. `show`
-- writes a number.
mod Tests
use core_dashboard.Prelude.{
  ℕ, String, Bool, Option, none, some, List, [], ◌∷◌, ◌++◌, if◌then◌else◌, ◌==◌, string_equality,
  leb, Text, codes,
}
use core_dashboard.Shared.Fetch.{is_ok, Answer, rejected, response}
use core_dashboard.Metrics.{MetricName, live_query, Range, live_range}

-- `PROMETHEUS_URL ?? "http://prometheus:9090"`.
abbrev pub base_url : Option String → String
base_url none = "http://prometheus:9090"
base_url (some url) = url

-- A path under the base with its parameters.
pub record PrometheusUrl : Type 0 where
  pub path : String
  pub params : List (String × Text)

module _ (show : ℕ → Text) where
  abbrev pub time_of : Option ℕ → List (String × Text)
  time_of none = []
  time_of (some at_sec) = ("time", show at_sec) ∷ []

  unfoldable pub query_instant : Text → Option ℕ → PrometheusUrl
  query_instant promql at_sec = record {
    path = "/api/v1/query";
    params = ("query", promql) ∷ time_of at_sec;
  }

  unfoldable pub query_range : Text → Range → PrometheusUrl
  query_range promql range = record {
    path = "/api/v1/query_range";
    params =
        ("query", promql)
        ∷ ("start", show range.start_sec)
        ∷ ("end", show range.end_sec)
        ∷ ("step", show range.step_sec)
        ∷ [];
  }

  -- What a parameter without a value is written as.
  abbrev pub or_undefined : Option Text → Text
  or_undefined none = codes "undefined"
  or_undefined (some promql) = promql

  -- `getLiveSeries` up to its request; `json` is `JSON.stringify`.
  unfoldable pub live_url : (Text → Text) → Text → MetricName → ℕ → ℕ → PrometheusUrl
  live_url json container name minutes now =
      query_range (or_undefined (live_query json name container)) (live_range now minutes)

-- `status` and `data?.result` of a body.
pub record PrometheusBody {ℓ} (A : Type ℓ) : Type ℓ where
  pub status : String
  pub result : Option (List A)

abbrev pub or_empty {ℓ} : {A : Type ℓ} → Option (List A) → List A
or_empty none = []
or_empty (some result) = result

abbrev pub read_body {ℓ} : {A : Type ℓ} → Option (PrometheusBody A) → Option (List A)
read_body none = none
read_body (some body) = if body.status == "success" then some (or_empty body.result) else none

-- `request`: none where it throws.
unfoldable pub request_result {ℓ} : {A : Type ℓ} → Answer (PrometheusBody A) → Option (List A)
request_result rejected = none
request_result (response status body) = if is_ok status then read_body body else none
