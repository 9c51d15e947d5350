-- ===== src/Web/MetricsPanel.antt =====
-- apps/web/src/components/metrics-panel.tsx: the tabs, the ranges, the legend, the body and the
-- tooltip. The chart's rows are those of Charts; a value is written by `write`.
use core_dashboard.Prelude.{
  ℕ, String, Bool, true, false, Option, none, some, List, [], ◌∷◌, ◌++◌, map, length, ltb,
  if◌then◌else◌,
}
use core_dashboard.Web.View.{
  Label, literal, message, plain, muted, danger, chosen, text, button, figure, View, each, when,
}
use core_dashboard.Web.Query.{Query}
use core_dashboard.Metrics.{MetricKind, cpu, memory, network_rx, network_tx, same_kind}
use core_dashboard.Web.Charts.{
  MetricTab, cpu_tab, ram_tab, net_tab, series_of, MetricRange, one_hour, one_day, one_week,
  range_hours, ChartRow,
}
use core_dashboard.Web.Format.{LocalTime, format_tick}
use Prim.Native.String

pub record MetricsPanel : Type 0 where
  pub tab : MetricTab
  pub range : MetricRange

abbrev pub new : MetricsPanel
new = record { tab = cpu_tab; range = one_hour }

pub data Action : Type 0 where
  pick_tab : MetricTab → Action
  pick_range : MetricRange → Action

unfoldable pub act : Action → MetricsPanel → MetricsPanel
act (pick_tab tab) s = record s { tab = tab }
act (pick_range range) s = record s { range = range }

abbrev pub tabs : List MetricTab
tabs = cpu_tab ∷ ram_tab ∷ net_tab ∷ []

abbrev pub ranges : List MetricRange
ranges = one_hour ∷ one_day ∷ one_week ∷ []

abbrev pub tab_key : MetricTab → String
tab_key cpu_tab = "metricsPanel.tabCpu"
tab_key ram_tab = "metricsPanel.tabRam"
tab_key net_tab = "metricsPanel.tabNet"

abbrev pub range_name : MetricRange → String
range_name one_hour = "1h"
range_name one_day = "24h"
range_name one_week = "7d"

abbrev pub series_label : MetricKind → String
series_label cpu = "cpu"
series_label memory = "ram"
series_label network_rx = "rx"
series_label network_tx = "tx"

abbrev pub same_tab : MetricTab → MetricTab → Bool
same_tab cpu_tab cpu_tab = true
same_tab ram_tab ram_tab = true
same_tab net_tab net_tab = true
same_tab _ _ = false

abbrev pub same_range : MetricRange → MetricRange → Bool
same_range one_hour one_hour = true
same_range one_day one_day = true
same_range one_week one_week = true
same_range _ _ = false

module _ {A : Type 0} where
  abbrev pub selector_button : Bool → Label → A → View A
  selector_button active l a = button false (if active then chosen else muted) l a ∷ []

abbrev pub legend_view : List MetricKind → View Action
legend_view series =
    when (ltb 1 (length series))
      (each (λ kind. text muted (literal (series_label kind)) ∷ []) series)

-- `series.find((s) => s.kind === entry.dataKey)?.label`, of which nothing is written if it is
-- undefined.
unfoldable pub label_in : MetricKind → List MetricKind → String
label_in kind [] = ""
label_in kind (k ∷ series) = if same_kind kind k then series_label k else label_in kind series

module _ {V : Type 0} where
  abbrev pub rows_of : Option (List (ChartRow V)) → List (ChartRow V)
  rows_of none = []
  rows_of (some rows) = rows

  -- The line chart draws a line for each series of the tab.
  abbrev pub chart_view : MetricTab → Bool → List (ChartRow V) → View Action
  chart_view tab is_loading [] =
      text muted (message (if is_loading then "metricsPanel.loading" else "metricsPanel.empty") [])
      ∷ []
  chart_view tab is_loading (row ∷ rows) = figure (map series_label (series_of tab)) ∷ []

  abbrev pub is_error : Query (List (ChartRow V)) → Bool
  is_error query = elim query.error [ none ↦ false | some e ↦ true ]

  unfoldable pub view : Query (List (ChartRow V)) → MetricsPanel → View Action
  view query s =
      each (λ id. selector_button (same_tab id s.tab) (message (tab_key id) []) (pick_tab id)) tabs
      ++ (legend_view (series_of s.tab)
          ++ (each
                (λ id.
                  selector_button (same_range id s.range) (literal (range_name id)) (pick_range id))
                ranges
              ++ (if is_error query
                  then text danger (message "metricsPanel.error" []) ∷ []
                  else chart_view s.tab query.is_loading (rows_of query.content))))

  unfoldable pub tooltip_view :
      (ℕ → String)
      → (MetricTab → V → String)
      → MetricsPanel
      → Bool
      → List (MetricKind × V)
      → LocalTime
      → View Action
  tooltip_view show write s active [] time = []
  tooltip_view show write s active (entry ∷ payload) time = when active (
      text muted (literal (format_tick show time (range_hours s.range)))
      ∷ each
          (λ e.
            text plain (
              literal
                (String.◌++◌ (label_in e.0 (series_of s.tab)) (String.◌++◌ ": " (write s.tab e.1))))
            ∷ [])
          (entry ∷ payload))
