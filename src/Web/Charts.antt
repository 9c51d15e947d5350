-- ===== src/Web/Charts.antt =====
-- The charts of a container: apps/web/src/components/metrics-panel.tsx (the rows of a chart) and
-- apps/web/src/lib/metrics/api.ts (what is asked for). The values are of any type.
pub mod Rows
pub mod Requests
pub mod Apart
pub mod Stored
mod Tests
use core_dashboard.Prelude.{
  ℕ, map, String, Bool, true, false, Option, none, some, List, [], ◌∷◌, if◌then◌else◌, leb, length,
  ◌==◌, number_equality,
}
use core_dashboard.Shared.Sorting.{sort}
use core_dashboard.Metrics.{MetricKind, cpu, memory, network_rx, network_tx, same_kind, MetricPoint}

pub data MetricRange : Type 0 where
  one_hour one_day one_week : MetricRange

unfoldable pub range_hours : MetricRange → ℕ
range_hours one_hour = 1
range_hours one_day = 24
range_hours one_week = 168

-- The path and its window: `live?...&minutes=` or `history?...&hours=`.
pub data Window : Type 0 where
  minutes hours : ℕ → Window

unfoldable pub window_of : MetricRange → Window
window_of one_hour = minutes 60
window_of range = hours (range_hours range)

unfoldable pub name_of : MetricKind → String
name_of cpu = "CPU"
name_of memory = "MEMORY"
name_of network_rx = "NETWORK_RX"
name_of network_tx = "NETWORK_TX"

pub data MetricTab : Type 0 where
  cpu_tab ram_tab net_tab : MetricTab

unfoldable pub series_of : MetricTab → List MetricKind
series_of cpu_tab = cpu ∷ []
series_of ram_tab = memory ∷ []
series_of net_tab = network_rx ∷ network_tx ∷ []

unfoldable pub refetch_interval : MetricRange → ℕ
refetch_interval one_hour = 30000
refetch_interval range = 120000

module _ {ℓ} (V : Type ℓ) where
  -- A row: its time, and a value for some of the kinds.
  pub record ChartRow : Type ℓ where
    pub t : ℕ
    pub values : MetricKind → Option V

  abbrev pub Series : Type ℓ
  Series = MetricKind × List (MetricPoint V)

module _ {ℓ} {V : Type ℓ} where
  abbrev pub with_value : MetricKind → V → ChartRow V → ChartRow V
  with_value kind v row = record row {
    values = λ k. if same_kind kind k then some v else row.values k;
  }

  abbrev pub new_row : ℕ → ChartRow V
  new_row t = record { t = t; values = λ k. none }

  -- One round of the inner loop, on the map's rows in the order of insertion.
  unfoldable pub set_point : MetricKind → MetricPoint V → List (ChartRow V) → List (ChartRow V)
  set_point kind point [] = with_value kind point.v (new_row point.t) ∷ []
  set_point kind point (row ∷ rows) =
      if row.t == point.t
      then with_value kind point.v row ∷ rows
      else row ∷ set_point kind point rows

  unfoldable pub set_points :
      MetricKind → List (MetricPoint V) → List (ChartRow V) → List (ChartRow V)
  set_points kind [] rows = rows
  set_points kind (point ∷ points) rows = set_points kind points (set_point kind point rows)

  unfoldable pub by_time : List (Series V) → List (ChartRow V) → List (ChartRow V)
  by_time [] rows = rows
  by_time ((kind, points) ∷ series) rows = by_time series (set_points kind points rows)

  unfoldable pub merge_series : List (Series V) → List (ChartRow V)
  merge_series series = sort (λ a b. leb a.t b.t) (by_time series [])

  -- `queryFn`: the series of the tab, each with the points that were fetched for it.
  unfoldable pub chart : (MetricKind → List (MetricPoint V)) → MetricTab → List (ChartRow V)
  chart points tab = merge_series (map (λ kind. (kind, points kind)) (series_of tab))
