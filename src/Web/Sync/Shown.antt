-- ===== src/Web/Sync/Shown.antt =====
-- From an event of Docker to the list of the web.
use core_dashboard.Prelude.{
  ℕ, ◌≤◌, String, ◌≡◌, ◌∙◌, refl, sym, ap, Bool, true, ◌&&◌, Option, some, List, [], ◌∷◌, ◌++◌, map,
  filter, any, arith, contains, length, All, Text, codes, text_equality, ◌==◌, string_equality,
  text_beq_iff, eq_iff, Bool-cases, inl, inr, subst, if◌then◌else◌,
}
use core_dashboard.Shared.Events.{ServiceState, StateSnapshot, ServiceUpdate, service_key}
use core_dashboard.Containers.{ContainerInfo, DockerEvent, handle_event}
use core_dashboard.Containers.Updates.{handle_event-IsPublished}
use core_dashboard.Gateway.{max_rooms_per_request}
use core_dashboard.Gateway.Rooms.{IsName}
use core_dashboard.Shared.Sorting.{count}
use core_dashboard.Web.Live.{Comparison, sort_services, apply_update}
use core_dashboard.Web.Live.Lists.{named, others, apply_update-new, apply_update-count}
use core_dashboard.Web.Sync.{
  LiveProvider, keys_of, connected, snapshot_answered, rooms_handled, published, run,
}
use core_dashboard.Web.Sync.Follow.{apply_all, run-follows}

abbrev pub same_service : ServiceState → ServiceState → Bool
same_service a b = a.project == b.project && a.service == b.service

abbrev key_of : ServiceState → Text
key_of s = codes (service_key s.project s.service)

same_service-key_of : (a b : ServiceState) → same_service a b ≡ true → key_of a ≡ key_of b
same_service-key_of a b h =
    let project : a.project ≡ b.project = ground (arith, eq_iff a.project b.project) in
    let service : a.service ≡ b.service = ground (arith, eq_iff a.service b.service) in
    ap (λ p. codes (service_key p a.service)) project
    ∙ ap (λ q. codes (service_key b.project q)) service

key_of-listed :
    (state : ServiceState) (services : List ServiceState)
    → any (same_service state) services ≡ true
    → contains (key_of state) (map key_of services) ≡ true
key_of-listed state [] h = h
key_of-listed state (s ∷ services) h = elim (Bool-cases (same_service state s)) [
  | inl e ↦ ground (arith, same_service-key_of state s e, text_beq_iff (key_of s) (key_of state))
  | inr e ↦ ground (arith, key_of-listed state services)
]

filter-last :
    (p : ServiceUpdate → Bool) (updates : List ServiceUpdate) (update : ServiceUpdate)
    → p update ≡ true
    → filter p (updates ++ update ∷ []) ≡ filter p updates ++ update ∷ []
filter-last p [] update h = ground arith
filter-last p (u ∷ updates) update h = ground (arith, filter-last p updates update h)

-- Of the container of an update a list has that state alone, and of the others what a list before
-- had.
pub record IsUpdated (update : ServiceUpdate) (before after : List ServiceState) : Type 0 where
  pub current :
      (test : ServiceState → Bool)
      → count (λ s. named update.state.name s && test s) after
        ≡ (if test update.state then 1 else 0)
  pub kept :
      (test : ServiceState → Bool)
      → count (others update.state.name test) after ≡ count (others update.state.name test) before

module _ (compare : String → String → Comparison) where
  apply_all-last :
      (updates : List ServiceUpdate) (update : ServiceUpdate) (services : List ServiceState)
      → apply_all compare (updates ++ update ∷ []) services
        ≡ apply_update compare (apply_all compare updates services) update
  unfolding apply_all
  apply_all-last [] update services = refl
  apply_all-last (u ∷ updates) update services =
      apply_all-last updates update (apply_update compare services u)

  -- A connection: the snapshot, and the updates before and after the gateway joins the rooms.
  abbrev pub connection :
      StateSnapshot → List ServiceUpdate → List ServiceUpdate → LiveProvider → List ServiceState
  connection snapshot missed updates s =
      (run compare
        (connected ∷ snapshot_answered snapshot ∷ map published missed
          ++ rooms_handled ∷ map published updates)
        s).services

  listed : StateSnapshot → ServiceUpdate → Bool
  listed snapshot update = contains (codes update.service) (keys_of snapshot)

  apply_update-IsUpdated :
      (services : List ServiceState) (update : ServiceUpdate)
      → IsUpdated update services (apply_update compare services update)
  apply_update-IsUpdated services update = record {
    current = apply_update-new compare services update;
    kept = (apply_update-count compare services update).1;
  }

  handle_event-applied :
      (inspect : String → Option ContainerInfo) (parse_date : String → ℕ) (projects : Option String)
      (now : ℕ) (event : DockerEvent) (update : ServiceUpdate) (snapshot : StateSnapshot)
      (missed updates : List ServiceUpdate) (s : LiveProvider)
      → All IsName (keys_of snapshot)
      → length (keys_of snapshot) ≤ max_rooms_per_request
      → handle_event inspect parse_date projects now (some event) ≡ some update
      → any (same_service update.state) snapshot.services ≡ true
      → connection snapshot missed (updates ++ update ∷ []) s
        ≡ apply_update compare (connection snapshot missed updates s) update
  unfolding listed
  handle_event-applied inspect parse_date projects now event update snapshot missed updates s names
        few e there =
      let p = handle_event-IsPublished inspect parse_date projects now event update e in
      let services = sort_services compare snapshot.services in
      let reached : listed snapshot update ≡ true =
        ap (λ key. contains (codes key) (keys_of snapshot)) p.keyed
        ∙ key_of-listed update.state snapshot.services there in
      run-follows compare snapshot missed (updates ++ update ∷ []) s names few
      ∙ ap (λ us. apply_all compare us services)
          (filter-last (listed snapshot) updates update reached)
      ∙ apply_all-last (filter (listed snapshot) updates) update services
      ∙ ap (λ before. apply_update compare before update)
          (sym (run-follows compare snapshot missed updates s names few))

  -- When the gateway has joined the rooms of a snapshot with at most fifty well-formed keys, an
  -- event of Docker that the api publishes for a service of the snapshot leaves in the list that the
  -- web shows, of its container, the published state and no other, and of the other containers what
  -- it held before.
  pub connection-handle_event :
      (inspect : String → Option ContainerInfo) (parse_date : String → ℕ) (projects : Option String)
      (now : ℕ) (event : DockerEvent) (update : ServiceUpdate) (snapshot : StateSnapshot)
      (missed updates : List ServiceUpdate) (s : LiveProvider)
      → All IsName (keys_of snapshot)
      → length (keys_of snapshot) ≤ max_rooms_per_request
      → handle_event inspect parse_date projects now (some event) ≡ some update
      → any (same_service update.state) snapshot.services ≡ true
      → IsUpdated update
          (connection snapshot missed updates s)
          (connection snapshot missed (updates ++ update ∷ []) s)
  connection-handle_event inspect parse_date projects now event update snapshot missed updates s
        names few e there =
      subst (IsUpdated update (connection snapshot missed updates s))
        (sym (
          handle_event-applied inspect parse_date projects now event update snapshot missed updates
            s names few e there))
        (apply_update-IsUpdated (connection snapshot missed updates s) update)
