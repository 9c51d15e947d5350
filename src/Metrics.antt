-- ===== src/Metrics.antt =====
-- apps/api/src/metrics: the rollups of five minutes and the windows of the series. A sample's
-- value is what the database stores; `Number` of its text, if that is finite, is a parameter, and
-- so is what Prometheus answers to each query.
pub mod Rollups
pub mod Windows
pub mod Prometheus
mod Tests
use core_dashboard.Prelude.{
  ℕ, ◌+◌, ◌-◌, ◌*◌, ◌/◌, max, String, Bool, true, false, not, ◌&&◌, Option, none, some, List, [],
  ◌∷◌, map, filter, any, contains, codes, trim, split, is_space, leb, ltb, ◌==◌, string_equality,
  number_equality, if◌then◌else◌, Text, ◌++◌,
}
use core_dashboard.Shared.Values.{Number, natural, negative, other, is_name}
use core_dashboard.Shared.Sorting.{sort}

abbrev pub bucket_sec : ℕ
bucket_sec = 300

abbrev pub retention_days : ℕ
retention_days = 30

abbrev pub max_range_points : ℕ
max_range_points = 240

pub data MetricKind : Type 0 where
  cpu memory network_rx network_tx : MetricKind

abbrev pub same_kind : MetricKind → MetricKind → Bool
same_kind cpu cpu = true
same_kind memory memory = true
same_kind network_rx network_rx = true
same_kind network_tx network_tx = true
same_kind _ _ = false

-- What `metric in MetricKind` lets pass: a kind, or a name that every object inherits.
pub data MetricName : Type 0 where
  known : MetricKind → MetricName
  inherited : MetricName

abbrev pub inherited_names : List String
inherited_names =
    "constructor" ∷ "__defineGetter__" ∷ "__defineSetter__" ∷ "hasOwnProperty" ∷ "__lookupGetter__"
    ∷ "__lookupSetter__" ∷ "isPrototypeOf" ∷ "propertyIsEnumerable" ∷ "toString" ∷ "valueOf"
    ∷ "__proto__" ∷ "toLocaleString" ∷ []

unfoldable pub kind_of : String → Option MetricName
kind_of name =
    if name == "CPU"
    then some (known cpu)
    else if name == "MEMORY"
    then some (known memory)
    else if name == "NETWORK_RX"
    then some (known network_rx)
    else if name == "NETWORK_TX"
    then some (known network_tx)
    else if contains name inherited_names
    then some inherited
    else none

-- `raw` is `Number` of the parameter, if it was given.
unfoldable pub parse_positive_int : Option Number → ℕ → ℕ → Option ℕ
parse_positive_int none fallback most = some fallback
parse_positive_int (some (natural n)) fallback most = if leb 1 n && leb n most then some n else none
parse_positive_int (some _) fallback most = none

abbrev pub with_kind : Text → Option MetricName → Option (Text × MetricName)
with_kind container none = none
with_kind container (some name) = some (container, name)

unfoldable pub parse_common : Option Text → Option String → Option (Text × MetricName)
parse_common (some container) (some metric) =
    if is_name 127 container then with_kind container (kind_of metric) else none
parse_common _ _ = none

-- The queries of `getLiveSeries`; `json` is `JSON.stringify`. An inherited name has none.
unfoldable pub live_query : (Text → Text) → MetricName → Text → Option Text
live_query json inherited container = none
live_query json (known cpu) container = some (
    codes "rate(container_cpu_usage_seconds_total{name="
    ++ json container
    ++ codes ",cpu=\"total\"}[1m])")
live_query json (known memory) container =
    some (codes "container_memory_working_set_bytes{name=" ++ json container ++ codes "}")
live_query json (known network_rx) container = some (
    codes "rate(container_network_receive_bytes_total{name="
    ++ json container
    ++ codes ",interface=\"eth0\"}[1m])")
live_query json (known network_tx) container = some (
    codes "rate(container_network_transmit_bytes_total{name="
    ++ json container
    ++ codes ",interface=\"eth0\"}[1m])")

-- `filter(Boolean).join("|")`.
abbrev pub join_bar : List Text → Text
join_bar [] = []
join_bar (p ∷ []) = p
join_bar (p ∷ q ∷ projects) = p ++ b'|' ∷ join_bar (q ∷ projects)

abbrev pub is_not_empty : Text → Bool
is_not_empty [] = false
is_not_empty (c ∷ s) = true

abbrev pub scope_of : Text → Text
scope_of [] = codes "name!=\"\""
scope_of (c ∷ projects) =
    codes "name!=\"\",container_label_com_docker_compose_project=~\""
    ++ (c ∷ projects)
    ++ codes "\""

-- The scope of the queries of a rollup: `projects` is `COMPOSE_PROJECTS`.
unfoldable pub rollup_scope : Option Text → Text
rollup_scope none = scope_of []
rollup_scope (some projects) =
    scope_of (join_bar (filter is_not_empty (map trim (split b',' projects))))

unfoldable pub rollup_query : Option Text → MetricKind → Text
rollup_query projects cpu =
    codes "rate(container_cpu_usage_seconds_total{"
    ++ rollup_scope projects
    ++ codes ",cpu=\"total\"}[5m])"
rollup_query projects memory =
    codes "avg_over_time(container_memory_working_set_bytes{"
    ++ rollup_scope projects
    ++ codes "}[5m])"
rollup_query projects network_rx =
    codes "rate(container_network_receive_bytes_total{"
    ++ rollup_scope projects
    ++ codes ",interface=\"eth0\"}[5m])"
rollup_query projects network_tx =
    codes "rate(container_network_transmit_bytes_total{"
    ++ rollup_scope projects
    ++ codes ",interface=\"eth0\"}[5m])"

-- The range that `getLiveSeries` asks Prometheus for.
pub record Range : Type 0 where
  pub start_sec : ℕ
  pub end_sec : ℕ
  pub step_sec : ℕ

-- `Math.ceil(n / MAX_RANGE_POINTS)`.
abbrev pub ceil_points : ℕ → ℕ
ceil_points n = (n + 239) / 240

unfoldable pub live_range : ℕ → ℕ → Range
live_range now minutes = record {
  start_sec = now / 1000 - minutes * 60;
  end_sec = now / 1000;
  step_sec = max 30 (ceil_points (minutes * 60));
}

-- The end of the last bucket that is over, in seconds, and its start in milliseconds.
abbrev pub bucket_end : ℕ → ℕ
bucket_end now = now / 1000 / bucket_sec * bucket_sec

abbrev pub bucket_start : ℕ → ℕ
bucket_start now = (bucket_end now - bucket_sec) * 1000

-- What the two handlers ask the service for: an answer of 400, or the query with its range, and
-- the container, the kind and the hours.
abbrev pub with_window {ℓ} : {A : Type ℓ} → Option A → Option ℕ → Option (A × ℕ)
with_window none window = none
with_window (some a) none = none
with_window (some a) (some window) = some (a, window)

unfoldable pub live : Option Text → Option String → Option Number → Option ((Text × MetricName) × ℕ)
live container metric minutes =
    with_window (parse_common container metric) (parse_positive_int minutes 60 360)

unfoldable pub history :
    Option Text → Option String → Option Number → Option ((Text × MetricName) × ℕ)
history container metric hours =
    with_window (parse_common container metric) (parse_positive_int hours 24 720)

module _ {ℓ} (V : Type ℓ) where
  pub record MetricRollup : Type ℓ where
    pub container_name : String
    pub metric : MetricKind
    pub start : ℕ
    pub avg_value : V

module _ {ℓ} (V : Type ℓ) where
  pub record MetricPoint : Type ℓ where
    pub t : ℕ
    pub v : V

-- A sample: the label `name`, if it is a string, and the text of its value.
pub record VectorSample : Type 0 where
  pub name : Option String
  pub value : String

module _ {ℓ} {V : Type ℓ} where
  -- The unique key: container, metric and bucket.
  unfoldable pub same_key : MetricRollup V → MetricRollup V → Bool
  same_key a b =
      a.container_name == b.container_name && same_kind a.metric b.metric && a.start == b.start

  abbrev pub stored : MetricRollup V → List (MetricRollup V) → Bool
  stored row table = any (same_key row) table

  -- `createMany` with `skipDuplicates`: the table and the count of the rows inserted.
  unfoldable pub create_many :
      List (MetricRollup V) → List (MetricRollup V) → List (MetricRollup V) × ℕ
  create_many [] table = (table, 0)
  create_many (row ∷ rows) table =
      let (same, few) = create_many rows table in
      let (more, count) = create_many rows (row ∷ table) in
      if stored row table then (same, few) else (more, count + 1)

  -- `deleteMany` of the rows that start before the cut-off.
  unfoldable pub purge_old_rollups : ℕ → List (MetricRollup V) → List (MetricRollup V)
  purge_old_rollups now table =
      filter (λ row. leb (now - retention_days * 24 * 3600000) row.start) table

  -- `getHistory`, before the rows are ordered.
  unfoldable pub history_rows :
      String → MetricKind → ℕ → ℕ → List (MetricRollup V) → List (MetricRollup V)
  history_rows container kind hours now table =
      filter
        (λ row.
          row.container_name == container
          && same_kind row.metric kind
          && leb (now - hours * 3600000) row.start)
        table

  -- `orderBy: { bucketStart: "asc" }`.
  unfoldable pub get_history :
      String → MetricKind → ℕ → ℕ → List (MetricRollup V) → List (MetricPoint V)
  get_history container kind hours now table =
      map (λ row. record { t = row.start; v = row.avg_value })
        (sort (λ a b. leb a.start b.start) (history_rows container kind hours now table))

  -- The first series that Prometheus answers with, if any; its times are seconds.
  unfoldable pub get_live_series : List (List (ℕ × V)) → List (MetricPoint V)
  get_live_series [] = []
  get_live_series (values ∷ series) = map (λ p. record { t = p.0 * 1000; v = p.1 }) values

  module _ (number : String → Option V) where
    abbrev pub row_of : MetricKind → ℕ → String → Option V → List (MetricRollup V)
    row_of kind start name none = []
    row_of kind start name (some v) =
        record { container_name = name; metric = kind; start = start; avg_value = v } ∷ []

    -- The row of a sample with a name and a finite value.
    abbrev pub sample_row : MetricKind → ℕ → Option String → String → List (MetricRollup V)
    sample_row kind start none value = []
    sample_row kind start (some name) value =
        if name == "" then [] else row_of kind start name (number value)

    unfoldable pub rows_of : MetricKind → ℕ → List VectorSample → List (MetricRollup V)
    rows_of kind start [] = []
    rows_of kind start (sample ∷ samples) =
        sample_row kind start sample.name sample.value ++ rows_of kind start samples

    -- One kind after the other; a query that fails ends the run.
    unfoldable pub run_rollup :
        ℕ
        → List (MetricKind × Option (List VectorSample))
        → List (MetricRollup V)
        → List (MetricRollup V) × ℕ
    run_rollup now [] table = (table, 0)
    run_rollup now ((kind, none) ∷ answers) table = (table, 0)
    run_rollup now ((kind, some samples) ∷ answers) table =
        let (after, count) = create_many (rows_of kind (bucket_start now) samples) table in
        let (final, more) = run_rollup now answers after in (final, count + more)
