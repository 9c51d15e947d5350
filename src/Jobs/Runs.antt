-- ===== src/Jobs/Runs.antt =====
-- What a job is asked for, and what a refresh returns and stores.
use core_dashboard.Prelude.{
  ℕ, ◌≤◌, String, ◌≡◌, ◌≢◌, refl, sym, subst, ◌∙◌, Bool, true, false, Option, none, some, List,
  arith, ◌⊎◌, if◌then◌else◌,
}
use core_dashboard.Shared.Auth.{AuthUser}
use core_dashboard.Shared.Values.{Number, natural}
use core_dashboard.Shared.Maps.{lookup, insert, lookup-insert, lookup-insert_ne}
use core_dashboard.Jobs.{
  JobRun, JobRunStatus, EnqueuedJob, clamp_steps, max_steps, map_state, same_status, trigger_demo,
  Refreshed, found, refresh_status, refresh_run,
}

-- Whatever number of steps is sent, taskforge is asked for 1 to 20, and for the number itself
-- when it lies there; the row that is created has its job's state and a requester.
pub clamp_steps-trigger_demo :
    (user : AuthUser) (steps : Option Number) (now : ℕ) (job : Option EnqueuedJob)
    → (1 ≤ (trigger_demo user steps now job).0)
      × ((trigger_demo user steps now job).0 ≤ max_steps)
      × ((n : ℕ)
          → steps ≡ some (natural n)
          → 1 ≤ n
          → n ≤ max_steps
          → (trigger_demo user steps now job).0 ≡ n)
unfolding trigger_demo clamp_steps
clamp_steps-trigger_demo user steps now job = (ground arith, ground arith, λ n e l h. ground arith)

same_status-eq : (a b : JobRunStatus) → same_status a b ≡ true → a ≡ b
same_status-eq a b e = ground arith

-- What a refresh leaves of the table, and the run that it returns.
pub record IsRefreshed (id : String) (state : Option String) (stored : Bool) (old run : JobRun)
    (runs after : List (String × JobRun)) : Type 0 where
  pub kept : lookup id after ≡ some run
  pub others : (k : String) → id ≢ k → lookup k after ≡ lookup k runs
  pub answered : (s : String) → state ≡ some s → stored ≡ true → run.status ≡ map_state s
  pub stale : (state ≡ none) ⊎ (stored ≡ false) → run ≡ old

-- The outcome of a refresh of a run that is known.
abbrev pub Outcome :
    String → Option String → Bool → JobRun → List (String × JobRun) → Refreshed → Type 0
Outcome id state stored old runs result =
    (run : JobRun) × (after : List (String × JobRun)) × (result ≡ found run after)
    × IsRefreshed id state stored old run runs after

module _ (id : String) (old : JobRun) (runs : List (String × JobRun))
    (h : lookup id runs ≡ some old) where
  unchanged :
      (state : Option String) (stored : Bool)
      → ((s : String) → state ≡ some s → stored ≡ true → old.status ≡ map_state s)
      → Outcome id state stored old runs (found old runs)
  unchanged state stored e =
      (old, runs, refl, record { kept = h; others = λ k n. refl; answered = e; stale = λ o. refl })

  changed :
      (s : String)
      → Outcome id (some s) true old runs (
          found
            (record old { status = map_state s })
            (insert id (record old { status = map_state s }) runs))
  changed s =
      let run = record old { status = map_state s } in
      (
        run,
        insert id run runs,
        refl,
        record {
          kept = lookup-insert id run runs;
          others = λ k n. lookup-insert_ne k id run runs n;
          answered = λ t e _. ground arith;
          stale = λ o. absurd (ground arith);
        },
      )

  choose :
      (s : String) (stored b : Bool)
      → same_status (map_state s) old.status ≡ b
      → Outcome id (some s) stored old runs (
          if b
          then found old runs
          else if stored
          then found
              (record old { status = map_state s })
              (insert id (record old { status = map_state s }) runs)
          else found old runs)
  choose s stored true e =
      unchanged (some s) stored
        (λ t t_is _. sym (same_status-eq (map_state s) old.status e) ∙ ground arith)
  choose s true false e = changed s
  choose s false false e = unchanged (some s) false (λ t t_is f. absurd (ground arith))

  refreshed :
      (state : Option String) (stored : Bool)
      → Outcome id state stored old runs (refresh_run id (some old) state stored runs)
  refreshed none stored = unchanged none stored (λ s e _. absurd (ground arith))
  refreshed (some s) stored = choose s stored (same_status (map_state s) old.status) refl

  -- A refresh of a known run returns the run that the table then holds for it, and changes no
  -- other. It has the state that taskforge gives, if it gives one and the database stores it, and
  -- is the run as it was if not.
  pub refresh_status-IsRefreshed :
      (state : Option String) (stored : Bool)
      → Outcome id state stored old runs (refresh_status id state stored runs)
  unfolding refresh_status
  refresh_status-IsRefreshed state stored =
      subst (λ r. Outcome id state stored old runs (refresh_run id r state stored runs)) (sym h)
        (refreshed state stored)
