-- ===== src/Web/Charts/Tests.antt =====
-- Charts, on concrete points.
use core_dashboard.Prelude.{
  ℕ, ◌-◌, ◌*◌, leb, if◌then◌else◌, ◌≡◌, refl, none, some, List, [], ◌∷◌, codes,
}
use core_dashboard.Shared.Values.{is_name}
use core_dashboard.Shared.Sorting.{sort, insert_sorted}
use core_dashboard.Metrics.{
  MetricKind, network_rx, network_tx, MetricRollup, same_key, get_history, history_rows, kind_of,
  parse_common, inherited,
}
use core_dashboard.Metrics.Rollups.{IsUnique}
use core_dashboard.Web.Charts.{
  Series, one_week, window_of, merge_series, by_time, set_points, set_point, chart, net_tab,
  series_of,
}
use core_dashboard.Web.Charts.Rows.{
  value_at, last_value, IsChronological, merge_series-IsChronological,
}
use core_dashboard.Web.Charts.Stored.{stored_value, chart-get_history}
use core_dashboard.Web.Charts.Requests.{IsTaken, window_of-IsTaken}

abbrev series : List (Series ℕ)
series =
    (network_rx, record { t = 20; v = 1 } ∷ record { t = 10; v = 2 } ∷ [])
    ∷ (network_tx, record { t = 10; v = 3 } ∷ [])
    ∷ []

value_at-series : value_at 10 network_tx (merge_series series) ≡ some 3
unfolding value_at merge_series by_time set_points set_point sort insert_sorted
value_at-series = refl

merge_series-IsChronological_case :
    IsChronological (merge_series series)
    × ((t : ℕ) (kind : MetricKind)
        → value_at t kind (merge_series series) ≡ last_value t kind series none)
merge_series-IsChronological_case = merge_series-IsChronological series

window_of-IsTaken_case : IsTaken (codes "shop-web") network_rx (window_of one_week)
unfolding is_name
window_of-IsTaken_case = window_of-IsTaken (codes "shop-web") network_rx one_week refl

-- A name that every object inherits passes the controller, and the service has no query for it.
parse_common-inherited :
    parse_common (some (codes "web")) (some "toString") ≡ some (codes "web", inherited)
unfolding parse_common kind_of is_name
parse_common-inherited = refl

abbrev row : MetricKind → ℕ → ℕ → MetricRollup ℕ
row kind start v = record { container_name = "web"; metric = kind; start = start; avg_value = v }

abbrev table : List (MetricRollup ℕ)
table = row network_tx 7500000 4 ∷ row network_rx 7200000 9 ∷ row network_tx 7200000 5 ∷ []

table-IsUnique : IsUnique table
unfolding same_key
table-IsUnique = (refl, (refl, (refl, tt)))

value_at-chart :
    value_at 7200000 network_tx (chart (λ k. get_history "web" k 1 9000000 table) net_tab) ≡ some 5
unfolding value_at chart merge_series by_time set_points set_point sort insert_sorted get_history
    history_rows series_of
value_at-chart = refl

chart-get_history_example :
    value_at 7200000 network_tx (chart (λ k. get_history "web" k 1 9000000 table) net_tab) ≡ (
      if leb (9000000 - 1 * 3600000) 7200000
      then stored_value "web" network_tx 7200000 table
      else none)
unfolding series_of
chart-get_history_example =
    chart-get_history "web" net_tab network_tx 1 9000000 7200000 table table-IsUnique refl
