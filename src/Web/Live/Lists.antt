-- ===== src/Web/Live/Lists.antt =====
-- What an update leaves in the list, and what the log buffer holds and counts.
use core_dashboard.Prelude.{
  ℕ, ◌+◌, ◌-◌, ◌≤◌, String, ◌≡◌, ◌∙◌, Bool, true, false, not, ◌&&◌, List, [], ◌∷◌, ◌++◌, arith,
  filter, length, length-append, length-drop, ◌==◌, string_equality, if◌then◌else◌,
}
use core_dashboard.Shared.Events.{ServiceState, ServiceUpdate, LogsBatch}
use core_dashboard.Shared.Maps.{beq_refl}
use core_dashboard.Shared.Sorting.{count, count-sort}
use core_dashboard.Web.Live.{
  Comparison, in_order, sort_services, apply_update, LogsBuffer, append_batch, append_all,
}

abbrev pub named : String → ServiceState → Bool
named name s = s.name == name

abbrev pub others : String → (ServiceState → Bool) → ServiceState → Bool
others name test s = if s.name == name then false else test s

abbrev rest : String → List ServiceState → List ServiceState
rest name services = filter (λ s. not (s.name == name)) services

count-named :
    (name : String) (services : List ServiceState) (state : ServiceState)
    → (state.name == name) ≡ true
    → count (named name) (rest name services ++ state ∷ []) ≡ 1
count-named name [] state e = ground arith
count-named name (s ∷ services) state e = ground (arith, count-named name services state e)

count-others :
    (name : String) (test : ServiceState → Bool) (services : List ServiceState)
    (state : ServiceState)
    → (state.name == name) ≡ true
    → count (others name test) (rest name services ++ state ∷ [])
      ≡ count (others name test) services
count-others name test [] state e = ground arith
count-others name test (s ∷ services) state e =
    ground (arith, count-others name test services state e)

count-new :
    (name : String) (test : ServiceState → Bool) (services : List ServiceState)
    (state : ServiceState)
    → (state.name == name) ≡ true
    → count (λ s. named name s && test s) (rest name services ++ state ∷ [])
      ≡ (if test state then 1 else 0)
count-new name test [] state e = ground arith
count-new name test (s ∷ services) state e = ground (arith, count-new name test services state e)

-- After an update the container's only entry in the list is its new state: a test holds of it as
-- often, 1 or 0 times, as it holds of the new state.
pub apply_update-new :
    (compare : String → String → Comparison) (services : List ServiceState) (update : ServiceUpdate)
    (test : ServiceState → Bool)
    → count (λ s. named update.state.name s && test s) (apply_update compare services update)
      ≡ (if test update.state then 1 else 0)
unfolding apply_update sort_services
apply_update-new compare services update test =
    let name = update.state.name in
    count-sort (in_order compare) (λ s. named name s && test s)
      (rest name services ++ update.state ∷ [])
    ∙ count-new name test services update.state (beq_refl name)

-- After an update the list holds its container once, by the new state, and of every other
-- container exactly what it held before.
pub apply_update-count :
    (compare : String → String → Comparison) (services : List ServiceState) (update : ServiceUpdate)
    → (count (named update.state.name) (apply_update compare services update) ≡ 1)
      × ((test : ServiceState → Bool)
          → count (others update.state.name test) (apply_update compare services update)
            ≡ count (others update.state.name test) services)
unfolding apply_update sort_services
apply_update-count compare services update =
    let name = update.state.name in
    let listed = rest name services ++ update.state ∷ [] in
    let same = beq_refl name in
    (
      count-sort (in_order compare) (named name) listed
          ∙ count-named name services update.state same,
      λ test.
          count-sort (in_order compare) (others name test) listed
          ∙ count-others name test services update.state same,
    )

-- The lines of the batches and the ones that the server counted as lost.
abbrev pub sent : List LogsBatch → ℕ
sent [] = 0
sent (batch ∷ batches) = length batch.lines + batch.dropped + sent batches

append_batch-length :
    (max : ℕ) (buffer : LogsBuffer) (batch : LogsBatch)
    → (length (append_batch max buffer batch).lines ≤ max)
      × (length (append_batch max buffer batch).lines + (append_batch max buffer batch).dropped
          ≡ length buffer.lines + buffer.dropped + (length batch.lines + batch.dropped))
unfolding append_batch
append_batch-length max buffer batch =
    let together = buffer.lines ++ batch.lines in
    let overflow = length together - max in
    (
      ground (arith, length-drop overflow together),
      ground (arith, length-drop overflow together, length-append buffer.lines batch.lines),
    )

-- The viewer keeps at most `max` lines, and the lines it shows and those it counts as dropped are
-- all the lines that the server sent or counted.
pub append_all-length :
    (max : ℕ) (buffer : LogsBuffer) (batches : List LogsBatch)
    → length buffer.lines ≤ max
    → (length (append_all max buffer batches).lines ≤ max)
      × (length (append_all max buffer batches).lines + (append_all max buffer batches).dropped
          ≡ length buffer.lines + buffer.dropped + sent batches)
unfolding append_all
append_all-length max buffer [] h = (h, omega arith)
append_all-length max buffer (batch ∷ batches) h =
    let (few, counted) = append_batch-length max buffer batch in
    let (few_too, counted_too) =
      append_all-length max (append_batch max buffer batch) batches few in
    (few_too, omega (arith, counted, counted_too))
