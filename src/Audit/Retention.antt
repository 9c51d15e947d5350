-- ===== src/Audit/Retention.antt =====
-- What the purge (apps/api/src/retention/retention.service.ts) leaves, and what it counts.
use core_dashboard.Prelude.{
  ℕ, ◌+◌, ◌≤◌, ◌≡◌, refl, Bool, true, false, List, [], ◌∷◌, arith, if◌then◌else◌, length, All,
}
use core_dashboard.Audit.{cutoff, purge, deleted, purge_tick}

module _ {A : Type 0} (created_at : A → ℕ) (now : ℕ) where
  abbrev pub IsRecent : A → Type 0
  IsRecent row = cutoff now ≤ created_at row

  -- One table after the purge, if its request succeeds: no old row, and no more rows gone than were
  -- counted.
  abbrev pub IsPurged : Bool → List A → List A → Type 0
  IsPurged true before after =
      All IsRecent after × (length after + deleted created_at now before ≡ length before)
  IsPurged false before after = after ≡ before

  purge-All : (table : List A) → All IsRecent (purge created_at now table)
  unfolding purge
  purge-All [] = tt
  purge-All (row ∷ table) = ground (arith, purge-All table)

  purge-length :
      (table : List A)
      → length (purge created_at now table) + deleted created_at now table ≡ length table
  unfolding purge
  purge-length [] = refl
  purge-length (row ∷ table) = ground (arith, purge-length table)

  purged :
      (succeeds : Bool) (table : List A)
      → IsPurged succeeds table (if succeeds then purge created_at now table else table)
  purged true table = (purge-All table, purge-length table)
  purged false table = refl

-- After a tick, each table whose request succeeds has no row older than thirty days, and has lost as
-- many rows as the log counts; the other table is as it was. The failure of one does not keep the
-- other from being purged.
pub purge_tick-IsPurged :
    {A B : Type 0} (audited_at : A → ℕ) (run_at : B → ℕ) (now : ℕ) (audit_ok runs_ok : Bool)
    (audit_logs : List A) (job_runs : List B)
    → IsPurged audited_at now audit_ok audit_logs
        (purge_tick audited_at run_at now audit_ok runs_ok audit_logs job_runs).0.0
      × IsPurged run_at now runs_ok job_runs
          (purge_tick audited_at run_at now audit_ok runs_ok audit_logs job_runs).0.1
unfolding purge_tick
purge_tick-IsPurged audited_at run_at now audit_ok runs_ok audit_logs job_runs =
    (purged audited_at now audit_ok audit_logs, purged run_at now runs_ok job_runs)
