-- ===== src/Web/Charts/Apart.antt =====
-- Rows of the table that start at different times: the points that they come to.
use core_dashboard.Prelude.{
  ℕ, ◌≡◌, ◌∙◌, refl, Bool, true, false, ◌&&◌, ◌||◌, Option, none, some, List, [], ◌∷◌, map, filter,
  arith, if◌then◌else◌, leb, ◌==◌, string_equality, number_equality, nat_beq_iff,
}
use core_dashboard.Shared.Sorting.{sort, insert_sorted}
use core_dashboard.Metrics.{MetricRollup, MetricPoint, same_key, stored}
use core_dashboard.Metrics.Rollups.{IsUnique}
use core_dashboard.Web.Charts.Rows.{last_point}

module _ {ℓ} {V : Type ℓ} where
  abbrev pub le : MetricRollup V → MetricRollup V → Bool
  le a b = leb a.start b.start

  abbrev pub point : MetricRollup V → MetricPoint V
  point row = record { t = row.start; v = row.avg_value }

  abbrev has : ℕ → List (MetricRollup V) → Bool
  has t [] = false
  has t (row ∷ rows) = row.start == t || has t rows

  abbrev first_at : ℕ → List (MetricRollup V) → Option V
  first_at t [] = none
  first_at t (row ∷ rows) = if row.start == t then some row.avg_value else first_at t rows

  -- No two rows start together.
  abbrev IsApart : List (MetricRollup V) → Type 0
  IsApart [] = Unit
  IsApart (row ∷ rows) = (has row.start rows ≡ false) × IsApart rows

  last_point-absent :
      (t : ℕ) (rows : List (MetricRollup V)) (found : Option V)
      → has t rows ≡ false
      → last_point t (map point rows) found ≡ found
  unfolding last_point
  last_point-absent t [] found h = refl
  last_point-absent t (row ∷ rows) found h = ground (arith, last_point-absent t rows found)

  last_point-first_at :
      (t : ℕ) (rows : List (MetricRollup V))
      → IsApart rows
      → last_point t (map point rows) none ≡ first_at t rows
  unfolding last_point
  last_point-first_at t [] u = refl
  last_point-first_at t (row ∷ rows) (n, u) = ground (
    arith,
    nat_beq_iff row.start t,
    last_point-absent t rows (some row.avg_value),
    last_point-first_at t rows u,
  )

  has-insert_sorted :
      (t : ℕ) (row : MetricRollup V) (rows : List (MetricRollup V))
      → has t (insert_sorted le row rows) ≡ (row.start == t || has t rows)
  unfolding insert_sorted
  has-insert_sorted t row [] = refl
  has-insert_sorted t row (r ∷ rows) = ground (arith, has-insert_sorted t row rows)

  insert_sorted-IsApart :
      (row : MetricRollup V) (rows : List (MetricRollup V))
      → has row.start rows ≡ false
      → IsApart rows
      → IsApart (insert_sorted le row rows)
  unfolding insert_sorted
  insert_sorted-IsApart row [] n u = (refl, tt)
  insert_sorted-IsApart row (r ∷ rows) n (m, u) =
      ground (arith, has-insert_sorted r.start row rows, insert_sorted-IsApart row rows)

  has-sort : (t : ℕ) (rows : List (MetricRollup V)) → has t (sort le rows) ≡ has t rows
  unfolding sort
  has-sort t [] = refl
  has-sort t (row ∷ rows) = ground (arith, has-insert_sorted t row (sort le rows), has-sort t rows)

  sort-IsApart : (rows : List (MetricRollup V)) → IsApart rows → IsApart (sort le rows)
  unfolding sort
  sort-IsApart [] u = tt
  sort-IsApart (row ∷ rows) (n, u) =
      insert_sorted-IsApart row (sort le rows) (has-sort row.start rows ∙ n) (sort-IsApart rows u)

  first_at-insert_sorted :
      (t : ℕ) (row : MetricRollup V) (rows : List (MetricRollup V))
      → first_at t (insert_sorted le row rows) ≡ first_at t (row ∷ rows)
  unfolding insert_sorted
  first_at-insert_sorted t row [] = refl
  first_at-insert_sorted t row (r ∷ rows) = ground (arith, first_at-insert_sorted t row rows)

  first_at-sort :
      (t : ℕ) (rows : List (MetricRollup V)) → first_at t (sort le rows) ≡ first_at t rows
  unfolding sort
  first_at-sort t [] = refl
  first_at-sort t (row ∷ rows) =
      ground (arith, first_at-insert_sorted t row (sort le rows), first_at-sort t rows)

  module _ (named kinded : MetricRollup V → Bool) where
    abbrev pub first_of : ℕ → List (MetricRollup V) → Option V
    first_of t [] = none
    first_of t (row ∷ table) =
        if named row && kinded row && row.start == t then some row.avg_value else first_of t table

  module _ (named kinded : MetricRollup V → Bool) (since : ℕ) where
    abbrev pub mine : MetricRollup V → Bool
    mine row = named row && kinded row && leb since row.start

    first_at-mine :
        (t : ℕ) (table : List (MetricRollup V))
        → first_at t (filter mine table)
          ≡ (if leb since t then first_of named kinded t table else none)
    first_at-mine t [] = ground arith
    first_at-mine t (row ∷ table) = ground (arith, first_at-mine t table)

    module _
        (alike : (a b : MetricRollup V)
          → named a && kinded a ≡ true
          → named b && kinded b ≡ true
          → a.start ≡ b.start
          → same_key a b ≡ true) where
      has-mine :
          (row : MetricRollup V) (table : List (MetricRollup V))
          → mine row ≡ true
          → stored row table ≡ false
          → has row.start (filter mine table) ≡ false
      has-mine row [] m h = refl
      has-mine row (r ∷ table) m h = ground (arith, alike row r, has-mine row table)

      mine-IsApart : (table : List (MetricRollup V)) → IsUnique table → IsApart (filter mine table)
      mine-IsApart [] u = tt
      mine-IsApart (row ∷ table) (n, u) = ground (arith, has-mine row table, mine-IsApart table u)

      pub last_point-mine :
          (t : ℕ) (table : List (MetricRollup V))
          → IsUnique table
          → last_point t (map point (sort le (filter mine table))) none
            ≡ (if leb since t then first_of named kinded t table else none)
      last_point-mine t table u =
          last_point-first_at t (sort le (filter mine table))
            (sort-IsApart (filter mine table) (mine-IsApart table u))
          ∙ first_at-sort t (filter mine table)
          ∙ first_at-mine t table
