-- ===== src/Containers/Updates.antt =====
-- Which events are published, and what a snapshot holds.
use core_dashboard.Prelude.{
  ℕ, String, ◌≡◌, refl, subst, Bool, true, false, Option, some, List, arith, map, filter,
  Option-cases, Bool-cases, inl, inr,
}
use core_dashboard.Shared.Events.{
  ServiceState, ServiceUpdate, ContainerLifecycleAction, service_key,
}
use core_dashboard.Shared.Sorting.{count, count-sort, sort-IsSorted, IsSorted}
use core_dashboard.Containers.{
  ContainerInfo, ListedContainer, DockerEvent, is_managed, action_of, id_of, handle_event,
  publish_from_event, publish_id, inspect_state, synthetic, or_else, get_snapshot, present,
  update_of,
}

module _ (inspect : String → Option ContainerInfo) (parse_date : String → ℕ)
    (projects : Option String) (now : ℕ) where
  -- An event that leads to an update: a lifecycle event of a managed container with an id.
  pub record IsPublished (event : DockerEvent) (update : ServiceUpdate) : Type 0 where
    pub id : String
    pub identified : id_of event ≡ some id
    pub acted : action_of event.action ≡ some update.action
    pub managed : is_managed projects event.attributes ≡ true
    pub observed :
        update.state
        ≡ or_else (inspect_state inspect parse_date projects now id) (synthetic id event.attributes)
    pub keyed : update.service ≡ service_key update.state.project update.state.service

  published :
      (event : DockerEvent) (action : ContainerLifecycleAction) (id : String)
      (update : ServiceUpdate)
      → id_of event ≡ some id
      → action_of event.action ≡ some action
      → is_managed projects event.attributes ≡ true
      → publish_id inspect parse_date projects now (some id) event action ≡ some update
      → IsPublished event update
  published event action id update i a m e =
      let state =
        or_else (inspect_state inspect parse_date projects now id)
          (synthetic id event.attributes) in
      let same : update_of inspect parse_date projects now event action state ≡ update =
        ground arith in
      subst (IsPublished event) same
        (record { id = id; identified = i; acted = a; managed = m; observed = refl; keyed = refl })

  -- An update is published only for an event that names a container by an id, with an action of
  -- the life cycle and the labels of a managed container; it carries the inspected state, or the
  -- one made from the event when the inspection fails, and goes out under the key of that state.
  pub handle_event-IsPublished :
      (event : DockerEvent) (update : ServiceUpdate)
      → handle_event inspect parse_date projects now (some event) ≡ some update
      → IsPublished event update
  unfolding handle_event publish_from_event
  handle_event-IsPublished event update e = elim (Option-cases (action_of event.action)) [
    | inl gone ↦ absurd (ground arith)
    | inr (action, acted) ↦ elim (Bool-cases (is_managed projects event.attributes)) [
      | inr foreign ↦ absurd (ground arith)
      | inl managed ↦ elim (Option-cases (id_of event)) [
        | inl unnamed ↦ absurd (ground arith)
        | inr (id, identified) ↦
            published event action id update identified acted managed (ground arith)
      ]
    ]
  ]

  -- The states that a snapshot is made of, before they are sorted.
  abbrev pub observed_states : List ListedContainer → List ServiceState
  observed_states containers = present (
      map (λ c. inspect_state inspect parse_date projects now c.id)
        (filter (λ c. is_managed projects c.labels) containers))

  -- A snapshot holds the states of the managed containers that could be inspected, each as often
  -- as it was observed, ordered by name.
  pub get_snapshot-IsSorted :
      (le : String → String → Bool)
      → ((a b c : String) → le a b ≡ true → le b c ≡ true → le a c ≡ true)
      → ((a b : String) → le a b ≡ false → le b a ≡ true)
      → (containers : List ListedContainer)
      → IsSorted
          (λ a b. le a.name b.name)
          (get_snapshot inspect parse_date projects now le containers).services
        × ((test : ServiceState → Bool)
            → count test (get_snapshot inspect parse_date projects now le containers).services
              ≡ count test (observed_states containers))
  unfolding get_snapshot
  get_snapshot-IsSorted le trans total containers = (
    sort-IsSorted (λ a b. le a.name b.name) (λ a b c. trans a.name b.name c.name)
        (λ a b. total a.name b.name) (observed_states containers),
    λ test. count-sort (λ a b. le a.name b.name) test (observed_states containers),
  )
