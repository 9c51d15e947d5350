-- ===== src/Metrics/Rollups.antt =====
-- The table of rollups under its unique key.
use core_dashboard.Prelude.{
  ℕ, ◌/◌, sym, ◌∙◌, String, ◌≡◌, refl, true, false, Option, none, some, List, [], ◌∷◌, arith, All,
  Bool-cases, inl, inr, nat_beq_iff,
}
use core_dashboard.Shared.Maps.{beq_refl}
use core_dashboard.Metrics.{
  MetricKind, MetricRollup, VectorSample, same_key, stored, create_many, purge_old_rollups, rows_of,
  run_rollup, bucket_start,
}

module _ {ℓ} {V : Type ℓ} where
  -- No two rows share their key.
  abbrev pub IsUnique : List (MetricRollup V) → Type 0
  IsUnique [] = Unit
  IsUnique (row ∷ table) = (stored row table ≡ false) × IsUnique table

  create_many-IsUnique :
      (rows table : List (MetricRollup V)) → IsUnique table → IsUnique (create_many rows table).0
  unfolding create_many
  create_many-IsUnique [] table u = u
  create_many-IsUnique (row ∷ rows) table u = elim (Bool-cases (stored row table)) [
    | inl e ↦ ground (arith, create_many-IsUnique rows table u)
    | inr e ↦ ground (arith, create_many-IsUnique rows (row ∷ table) (e, u))
  ]

  abbrev IsStored : List (MetricRollup V) → MetricRollup V → Type 0
  IsStored table row = stored row table ≡ true

  same_key_refl : (row : MetricRollup V) → same_key row row ≡ true
  unfolding same_key
  same_key_refl row = ground (arith, beq_refl row.container_name, nat_beq_iff row.start row.start)

  create_many-kept :
      (rows table : List (MetricRollup V)) (row : MetricRollup V)
      → IsStored table row
      → IsStored (create_many rows table).0 row
  unfolding create_many
  create_many-kept [] table row h = h
  create_many-kept (r ∷ rows) table row h = elim (Bool-cases (stored r table)) [
    | inl e ↦ ground (arith, create_many-kept rows table row h)
    | inr e ↦
        let there : IsStored (r ∷ table) row = ground (arith, h) in
        ground (arith, create_many-kept rows (r ∷ table) row there)
  ]

  create_many-IsStored :
      (rows table : List (MetricRollup V)) → All (IsStored (create_many rows table).0) rows
  unfolding create_many
  create_many-IsStored [] table = tt
  create_many-IsStored (r ∷ rows) table = elim (Bool-cases (stored r table)) [
    | inl e ↦ ground (arith, create_many-IsStored rows table, create_many-kept rows table r e)
    | inr e ↦
        let there : IsStored (r ∷ table) r = ground (arith, same_key_refl r) in
        ground
          (arith, create_many-IsStored rows (r ∷ table), create_many-kept rows (r ∷ table) r there)
  ]

  create_many-again :
      (rows table : List (MetricRollup V))
      → All (IsStored table) rows
      → create_many rows table ≡ (table, 0)
  unfolding create_many
  create_many-again [] table h = refl
  create_many-again (r ∷ rows) table (e, h) = ground (arith, create_many-again rows table h)

  purge-stored :
      (now : ℕ) (row : MetricRollup V) (table : List (MetricRollup V))
      → stored row table ≡ false
      → stored row (purge_old_rollups now table) ≡ false
  unfolding purge_old_rollups
  purge-stored now row [] e = refl
  purge-stored now row (r ∷ table) e = ground (arith, purge-stored now row table)

  purge-IsUnique :
      (now : ℕ) (table : List (MetricRollup V))
      → IsUnique table
      → IsUnique (purge_old_rollups now table)
  unfolding purge_old_rollups
  purge-IsUnique now [] u = tt
  purge-IsUnique now (r ∷ table) (e, u) =
      ground (arith, purge-IsUnique now table u, purge-stored now r table e)

module _ {ℓ} {V : Type ℓ} (number : String → Option V) where
  abbrev Answers : Type 0
  Answers = List (MetricKind × Option (List VectorSample))

  -- The rows of all the answers before a failure are in the table.
  abbrev Holds : ℕ → Answers → List (MetricRollup V) → Type 0
  Holds now [] table = Unit
  Holds now ((kind, none) ∷ answers) table = Unit
  Holds now ((kind, some samples) ∷ answers) table =
      All (IsStored table) (rows_of number kind (bucket_start now) samples)
      × Holds now answers table

  run-kept :
      (now : ℕ) (answers : Answers) (table : List (MetricRollup V)) (row : MetricRollup V)
      → IsStored table row
      → IsStored (run_rollup number now answers table).0 row
  unfolding run_rollup
  run-kept now [] table row h = h
  run-kept now ((kind, none) ∷ answers) table row h = h
  run-kept now ((kind, some samples) ∷ answers) table row h =
      run-kept now answers _ row
        (create_many-kept (rows_of number kind (bucket_start now) samples) table row h)

  run-kept-All :
      (now : ℕ) (answers : Answers) (table rows : List (MetricRollup V))
      → All (IsStored table) rows
      → All (IsStored (run_rollup number now answers table).0) rows
  run-kept-All now answers table [] h = tt
  run-kept-All now answers table (row ∷ rows) (e, h) =
      (run-kept now answers table row e, run-kept-All now answers table rows h)

  run-Holds :
      (now : ℕ) (answers : Answers) (table : List (MetricRollup V))
      → Holds now answers (run_rollup number now answers table).0
  unfolding run_rollup
  run-Holds now [] table = tt
  run-Holds now ((kind, none) ∷ answers) table = tt
  run-Holds now ((kind, some samples) ∷ answers) table =
      let rows = rows_of number kind (bucket_start now) samples in
      let after = (create_many rows table).0 in
      (
        run-kept-All now answers after rows (create_many-IsStored rows table),
        run-Holds now answers after,
      )

  Holds-run :
      (now : ℕ) (answers : Answers) (table : List (MetricRollup V))
      → Holds now answers table
      → run_rollup number now answers table ≡ (table, 0)
  unfolding run_rollup
  Holds-run now [] table h = refl
  Holds-run now ((kind, none) ∷ answers) table h = refl
  Holds-run now ((kind, some samples) ∷ answers) table (e, h) =
      rw (create_many-again (rows_of number kind (bucket_start now) samples) table e)
        (rw (Holds-run now answers table h) refl)

  run-IsUnique :
      (now : ℕ) (answers : Answers) (table : List (MetricRollup V))
      → IsUnique table
      → IsUnique (run_rollup number now answers table).0
  unfolding run_rollup
  run-IsUnique now [] table u = u
  run-IsUnique now ((kind, none) ∷ answers) table u = u
  run-IsUnique now ((kind, some samples) ∷ answers) table u =
      run-IsUnique now answers _
        (create_many-IsUnique (rows_of number kind (bucket_start now) samples) table u)

  same_bucket :
      (now later : ℕ) → now / 300000 ≡ later / 300000 → bucket_start now ≡ bucket_start later
  same_bucket now later e = omega arith

  run-bucket :
      (now later : ℕ) (answers : Answers) (table : List (MetricRollup V))
      → bucket_start now ≡ bucket_start later
      → run_rollup number later answers table ≡ run_rollup number now answers table
  unfolding run_rollup
  run-bucket now later [] table e = refl
  run-bucket now later ((kind, none) ∷ answers) table e = refl
  run-bucket now later ((kind, some samples) ∷ answers) table e =
      rw (sym e, run-bucket now later answers _ e) refl

  -- A rollup that is repeated with the same answers at any time in the same five minutes inserts
  -- nothing and leaves the table as the first one left it, whether a query failed or not; and
  -- neither a rollup nor a purge at any time gives two rows of the table one key.
  pub run_rollup-again :
      (now later purged : ℕ) (answers : Answers) (table : List (MetricRollup V))
      → now / 300000 ≡ later / 300000
      → (run_rollup number later answers (run_rollup number now answers table).0
          ≡ ((run_rollup number now answers table).0, 0))
        × (IsUnique table
            → IsUnique (purge_old_rollups purged (run_rollup number now answers table).0))
  run_rollup-again now later purged answers table e = (
    run-bucket now later answers _ (same_bucket now later e)
        ∙ Holds-run now answers _ (run-Holds now answers table),
    λ u. purge-IsUnique purged _ (run-IsUnique now answers table u),
  )
