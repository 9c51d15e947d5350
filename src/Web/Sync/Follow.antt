-- ===== src/Web/Sync/Follow.antt =====
-- Which of the updates that are published the web shows.
use core_dashboard.Prelude.{
  String, ◌≤◌, ◌≡◌, ◌∙◌, refl, ap, Bool, true, false, not, ◌&&◌, List, [], ◌∷◌, ◌++◌, map, arith,
  filter, take, take-all, length, contains, All, Text, codes, text_equality, text_beq, text_beq_iff,
  if◌then◌else◌, Bool-cases, inl, inr,
}
use core_dashboard.Shared.Events.{ServiceState, StateSnapshot, ServiceUpdate}
use core_dashboard.Shared.Values.{text}
use core_dashboard.Gateway.{
  max_rooms_per_request, valid_services, distinct_after, sanitize_services, on_subscribe, receives,
}
use core_dashboard.Gateway.Rooms.{IsName, receives_iff}
use core_dashboard.Web.Live.{Comparison, sort_services, apply_update}
use core_dashboard.Web.Sync.{
  LiveProvider, keys_of, request_of, Event, connected, snapshot_answered, rooms_handled, published,
  connect, join_asked, resync, deliver, step, run,
}

valid_services-names : (keys : List Text) → All IsName keys → valid_services (map text keys) ≡ keys
unfolding valid_services
valid_services-names [] h = refl
valid_services-names (key ∷ keys) (n, h) = ground (arith, valid_services-names keys h)

length-distinct_after-le : (seen keys : List Text) → length (distinct_after seen keys) ≤ length keys
unfolding distinct_after
length-distinct_after-le seen [] = omega arith
length-distinct_after-le seen (key ∷ keys) =
    ground (arith, length-distinct_after-le seen keys, length-distinct_after-le (key ∷ seen) keys)

contains-distinct_after :
    (x : Text) (seen keys : List Text)
    → contains x (distinct_after seen keys) ≡ (contains x keys && not (contains x seen))
unfolding distinct_after
contains-distinct_after x seen [] = refl
contains-distinct_after x seen (key ∷ keys) = elim (Bool-cases (text_beq key x)) [
  | inl same ↦ ground (
    arith,
    text_beq_iff key x,
    contains-distinct_after x seen keys,
    contains-distinct_after x (key ∷ seen) keys,
  )
  | inr other ↦
      ground
        (arith, contains-distinct_after x seen keys, contains-distinct_after x (key ∷ seen) keys)
]

-- The gateway takes up to fifty well-formed keys as they are.
contains-sanitize_services :
    (x : Text) (keys : List Text)
    → All IsName keys
    → length keys ≤ max_rooms_per_request
    → contains x (sanitize_services (request_of keys)) ≡ contains x keys
unfolding sanitize_services
contains-sanitize_services x keys h few =
    ap (λ services. contains x (take max_rooms_per_request (distinct_after [] services)))
      (valid_services-names keys h)
    ∙ ap (contains x) (
        take-all max_rooms_per_request (distinct_after [] keys)
          (omega (arith, few, length-distinct_after-le [] keys)))
    ∙ contains-distinct_after x [] keys
    ∙ ground arith

module _ (compare : String → String → Comparison) where
  -- The list after updates, one by one.
  unfoldable pub apply_all : List ServiceUpdate → List ServiceState → List ServiceState
  apply_all [] services = services
  apply_all (update ∷ updates) services = apply_all updates (apply_update compare services update)

  abbrev pub reaches : List Text → ServiceUpdate → Bool
  reaches rooms update = receives (codes update.service) rooms

  run-append :
      (before after : List Event) (s : LiveProvider)
      → run compare (before ++ after) s ≡ run compare after (run compare before s)
  unfolding run
  run-append [] after s = refl
  run-append (e ∷ before) after s = run-append before after (step compare e s)

  abbrev pub delivered : List ServiceUpdate → LiveProvider → LiveProvider
  delivered updates s = record s { services = apply_all updates s.services }

  run-published_if :
      (b : Bool) (update : ServiceUpdate) (updates : List ServiceUpdate) (s : LiveProvider)
      → ((t : LiveProvider)
          → run compare (map published updates) t ≡ delivered (filter (reaches t.rooms) updates) t)
      → run compare
          (map published updates)
          (if b then record s { services = apply_update compare s.services update } else s)
        ≡ delivered
            (if b
              then update ∷ filter (reaches s.rooms) updates
              else filter (reaches s.rooms) updates)
            s
  unfolding apply_all
  run-published_if true update updates s rest =
      rest (record s { services = apply_update compare s.services update })
  run-published_if false update updates s rest = rest s

  run-published :
      (updates : List ServiceUpdate) (s : LiveProvider)
      → run compare (map published updates) s ≡ delivered (filter (reaches s.rooms) updates) s
  unfolding run step deliver apply_all
  run-published [] s = refl
  run-published (update ∷ updates) s =
      run-published_if (reaches s.rooms update) update updates s (run-published updates)

  filter-none : (updates : List ServiceUpdate) → filter (reaches []) updates ≡ []
  filter-none [] = refl
  filter-none (update ∷ updates) = ground (arith, filter-none updates)

  reaches-join_asked :
      (keys : List Text) (s : LiveProvider) (update : ServiceUpdate)
      → s.rooms ≡ []
      → All IsName keys
      → length keys ≤ max_rooms_per_request
      → reaches (join_asked keys s).rooms update ≡ contains (codes update.service) keys
  reaches-join_asked [] s update fresh h few = ap (receives (codes update.service)) fresh
  reaches-join_asked (key ∷ keys) s update fresh h few =
      ap (λ rooms. receives (codes update.service) (on_subscribe (request_of (key ∷ keys)) rooms).0)
        fresh
      ∙ (receives_iff (codes update.service) (request_of (key ∷ keys)) []).0
      ∙ ground (arith, contains-sanitize_services (codes update.service) (key ∷ keys) h few)

  filter-reaches :
      (keys : List Text) (s : LiveProvider) (updates : List ServiceUpdate)
      → s.rooms ≡ []
      → All IsName keys
      → length keys ≤ max_rooms_per_request
      → filter (reaches (join_asked keys s).rooms) updates
        ≡ filter (λ u. contains (codes u.service) keys) updates
  filter-reaches keys s [] fresh h few = refl
  filter-reaches keys s (update ∷ updates) fresh h few = ground (
    arith,
    reaches-join_asked keys s update fresh h few,
    filter-reaches keys s updates fresh h few,
  )

  -- The socket has no rooms until the gateway has handled the request for them.
  run-missed :
      (updates : List ServiceUpdate) (s : LiveProvider)
      → s.rooms ≡ []
      → run compare (map published updates) s ≡ s
  run-missed updates s fresh =
      run-published updates s
      ∙ ap (λ rooms. delivered (filter (reaches rooms) updates) s) fresh
      ∙ ap (λ us. delivered us s) (filter-none updates)
      ∙ unfold apply_all in refl

  join_asked-services :
      (keys : List Text) (s : LiveProvider) → (join_asked keys s).services ≡ s.services
  join_asked-services [] s = refl
  join_asked-services (key ∷ keys) s = refl

  -- A new connection takes the snapshot's services, and then, when their keys are at most fifty
  -- well-formed names, applies every update of one of them that is published once the gateway has
  -- handled the request for the rooms, in order, and none that is published before.
  pub run-follows :
      (snapshot : StateSnapshot) (missed updates : List ServiceUpdate) (s : LiveProvider)
      → All IsName (keys_of snapshot)
      → length (keys_of snapshot) ≤ max_rooms_per_request
      → (run compare
          (connected ∷ snapshot_answered snapshot ∷ map published missed
            ++ rooms_handled ∷ map published updates)
          s).services
        ≡ apply_all
            (filter (λ u. contains (codes u.service) (keys_of snapshot)) updates)
            (sort_services compare snapshot.services)
  unfolding run step resync
  run-follows snapshot missed updates s h few =
      let t = resync compare snapshot (connect s) in
      let u = join_asked (keys_of snapshot) t in
      ap (λ r. r.services)
        (run-append (map published missed) (rooms_handled ∷ map published updates) t)
      ∙ ap (λ r. (run compare (rooms_handled ∷ map published updates) r).services)
          (run-missed missed t refl)
      ∙ ap (λ r. r.services) (run-published updates u)
      ∙ ap (λ us. apply_all us u.services) (filter-reaches (keys_of snapshot) t updates refl h few)
      ∙ ap (apply_all (filter (λ u. contains (codes u.service) (keys_of snapshot)) updates))
          (join_asked-services (keys_of snapshot) t)
