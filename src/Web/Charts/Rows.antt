-- ===== src/Web/Charts/Rows.antt =====
-- The rows of a chart: their times and their values.
use core_dashboard.Prelude.{
  ℕ, ◌<◌, ◌≡◌, ◌∙◌, refl, ap, Bool, false, ◌||◌, Option, none, some, List, [], ◌∷◌, if◌then◌else◌,
  leb, ◌==◌, number_equality, arith, All, Bool-cases, inl, inr,
}
use core_dashboard.Shared.Sorting.{sort, insert_sorted}
use core_dashboard.Metrics.{MetricKind, same_kind, MetricPoint}
use core_dashboard.Web.Charts.{ChartRow, Series, set_point, set_points, by_time, merge_series}

module _ {ℓ} {V : Type ℓ} where
  -- The value of a time and a kind, in rows and in series: the last one given.
  unfoldable pub value_at : ℕ → MetricKind → List (ChartRow V) → Option V
  value_at t kind [] = none
  value_at t kind (row ∷ rows) = if row.t == t then row.values kind else value_at t kind rows

  unfoldable pub last_point : ℕ → List (MetricPoint V) → Option V → Option V
  last_point t [] found = found
  last_point t (point ∷ points) found =
      last_point t points (if point.t == t then some point.v else found)

  unfoldable pub last_value : ℕ → MetricKind → List (Series V) → Option V → Option V
  last_value t kind [] found = found
  last_value t kind ((k, points) ∷ series) found =
      last_value t kind series (if same_kind k kind then last_point t points found else found)

  -- Strictly in the order of time.
  abbrev pub IsChronological : List (ChartRow V) → Type 0
  IsChronological [] = Unit
  IsChronological (row ∷ rows) = All (λ r. row.t < r.t) rows × IsChronological rows

  abbrev has : ℕ → List (ChartRow V) → Bool
  has t [] = false
  has t (row ∷ rows) = row.t == t || has t rows

  abbrev IsUnique : List (ChartRow V) → Type 0
  IsUnique [] = Unit
  IsUnique (row ∷ rows) = (has row.t rows ≡ false) × IsUnique rows

  has-set_point :
      (t : ℕ) (kind : MetricKind) (point : MetricPoint V) (rows : List (ChartRow V))
      → has t (set_point kind point rows) ≡ (point.t == t || has t rows)
  unfolding set_point
  has-set_point t kind point [] = refl
  has-set_point t kind point (row ∷ rows) = ground (arith, has-set_point t kind point rows)

  set_point-IsUnique :
      (kind : MetricKind) (point : MetricPoint V) (rows : List (ChartRow V))
      → IsUnique rows
      → IsUnique (set_point kind point rows)
  unfolding set_point
  set_point-IsUnique kind point [] u = (refl, tt)
  set_point-IsUnique kind point (row ∷ rows) (n, u) =
      ground (arith, has-set_point row.t kind point rows, set_point-IsUnique kind point rows u)

  set_points-IsUnique :
      (kind : MetricKind) (points : List (MetricPoint V)) (rows : List (ChartRow V))
      → IsUnique rows
      → IsUnique (set_points kind points rows)
  unfolding set_points
  set_points-IsUnique kind [] rows u = u
  set_points-IsUnique kind (point ∷ points) rows u =
      set_points-IsUnique kind points (set_point kind point rows)
        (set_point-IsUnique kind point rows u)

  by_time-IsUnique :
      (series : List (Series V)) (rows : List (ChartRow V))
      → IsUnique rows
      → IsUnique (by_time series rows)
  unfolding by_time
  by_time-IsUnique [] rows u = u
  by_time-IsUnique ((kind, points) ∷ series) rows u =
      by_time-IsUnique series (set_points kind points rows) (set_points-IsUnique kind points rows u)

  value_at-set_point :
      (t : ℕ) (kind k : MetricKind) (point : MetricPoint V) (rows : List (ChartRow V))
      → value_at t kind (set_point k point rows) ≡ (
          if same_kind k kind
          then (if point.t == t then some point.v else value_at t kind rows)
          else value_at t kind rows)
  unfolding value_at set_point
  value_at-set_point t kind k point [] = ground arith
  value_at-set_point t kind k point (row ∷ rows) =
      ground (arith, value_at-set_point t kind k point rows)

  value_at-set_points :
      (t : ℕ) (kind k : MetricKind) (points : List (MetricPoint V)) (rows : List (ChartRow V))
      → value_at t kind (set_points k points rows) ≡ (
          if same_kind k kind
          then last_point t points (value_at t kind rows)
          else value_at t kind rows)
  unfolding set_points last_point
  value_at-set_points t kind k [] rows = ground arith
  value_at-set_points t kind k (point ∷ points) rows = ground (
    arith,
    value_at-set_points t kind k points (set_point k point rows),
    value_at-set_point t kind k point rows,
  )

  value_at-by_time :
      (t : ℕ) (kind : MetricKind) (series : List (Series V)) (rows : List (ChartRow V))
      → value_at t kind (by_time series rows) ≡ last_value t kind series (value_at t kind rows)
  unfolding by_time last_value
  value_at-by_time t kind [] rows = refl
  value_at-by_time t kind ((k, points) ∷ series) rows =
      value_at-by_time t kind series (set_points k points rows)
      ∙ ap (last_value t kind series) (value_at-set_points t kind k points rows)

  abbrev le : ChartRow V → ChartRow V → Bool
  le a b = leb a.t b.t

  has-insert_sorted :
      (t : ℕ) (row : ChartRow V) (rows : List (ChartRow V))
      → has t (insert_sorted le row rows) ≡ (row.t == t || has t rows)
  unfolding insert_sorted
  has-insert_sorted t row [] = refl
  has-insert_sorted t row (r ∷ rows) = ground (arith, has-insert_sorted t row rows)

  has-sort : (t : ℕ) (rows : List (ChartRow V)) → has t (sort le rows) ≡ has t rows
  unfolding sort
  has-sort t [] = refl
  has-sort t (row ∷ rows) = ground (arith, has-insert_sorted t row (sort le rows), has-sort t rows)

  value_at-insert_sorted :
      (t : ℕ) (kind : MetricKind) (row : ChartRow V) (rows : List (ChartRow V))
      → value_at t kind (insert_sorted le row rows) ≡ value_at t kind (row ∷ rows)
  unfolding insert_sorted value_at
  value_at-insert_sorted t kind row [] = refl
  value_at-insert_sorted t kind row (r ∷ rows) =
      ground (arith, value_at-insert_sorted t kind row rows)

  value_at-sort :
      (t : ℕ) (kind : MetricKind) (rows : List (ChartRow V))
      → value_at t kind (sort le rows) ≡ value_at t kind rows
  unfolding sort value_at
  value_at-sort t kind [] = refl
  value_at-sort t kind (row ∷ rows) =
      ground (arith, value_at-insert_sorted t kind row (sort le rows), value_at-sort t kind rows)

  All-later :
      (a b : ChartRow V) (rows : List (ChartRow V))
      → a.t < b.t
      → All (λ r. b.t < r.t) rows
      → All (λ r. a.t < r.t) rows
  All-later a b [] h k = tt
  All-later a b (r ∷ rows) h (e, k) = (omega arith, All-later a b rows h k)

  All-insert_sorted :
      (a row : ChartRow V) (rows : List (ChartRow V))
      → a.t < row.t
      → All (λ r. a.t < r.t) rows
      → All (λ r. a.t < r.t) (insert_sorted le row rows)
  unfolding insert_sorted
  All-insert_sorted a row [] h k = (h, tt)
  All-insert_sorted a row (r ∷ rows) h (e, k) = ground (arith, All-insert_sorted a row rows h k)

  insert_sorted-IsChronological :
      (row : ChartRow V) (rows : List (ChartRow V))
      → has row.t rows ≡ false
      → IsChronological rows
      → IsChronological (insert_sorted le row rows)
  unfolding insert_sorted
  insert_sorted-IsChronological row [] n h = (tt, tt)
  insert_sorted-IsChronological row (r ∷ rows) n (k, h) = elim (Bool-cases (leb row.t r.t)) [
    | inl e ↦
        let before : row.t < r.t = ground arith in ground (arith, All-later row r rows before k)
    | inr e ↦
        let after : r.t < row.t = ground arith in
        let absent : has row.t rows ≡ false = ground arith in
        ground (
          arith,
          All-insert_sorted r row rows after k,
          insert_sorted-IsChronological row rows absent h,
        )
  ]

  sort-IsChronological : (rows : List (ChartRow V)) → IsUnique rows → IsChronological (sort le rows)
  unfolding sort
  sort-IsChronological [] u = tt
  sort-IsChronological (row ∷ rows) (n, u) =
      insert_sorted-IsChronological row (sort le rows) (has-sort row.t rows ∙ n)
        (sort-IsChronological rows u)

  -- The rows of a chart are strictly in the order of time, and the value of a row for a kind is the
  -- last one that a series of that kind gives for that time.
  pub merge_series-IsChronological :
      (series : List (Series V))
      → IsChronological (merge_series series)
        × ((t : ℕ) (kind : MetricKind)
            → value_at t kind (merge_series series) ≡ last_value t kind series none)
  unfolding merge_series
  merge_series-IsChronological series = (
    sort-IsChronological (by_time series []) (by_time-IsUnique series [] tt),
    λ t kind.
        value_at-sort t kind (by_time series [])
        ∙ value_at-by_time t kind series []
        ∙ (unfold value_at in refl),
  )
