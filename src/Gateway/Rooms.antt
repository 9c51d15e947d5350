-- ===== src/Gateway/Rooms.antt =====
-- Which rooms a request can name, and which updates a socket receives after it.
use core_dashboard.Prelude.{
  ℕ, zero, suc, ◌≤◌, ◌≡◌, refl, true, false, not, ◌&&◌, ◌||◌, List, [], ◌∷◌, ◌++◌, arith, take,
  contains, Text, text_equality, ◌==◌, text_beq, text_beq_iff, length, length-take, All, All-take,
  Bool-cases, inl, inr,
}
use core_dashboard.Shared.Values.{Value, text, is_name}
use core_dashboard.Gateway.{
  max_rooms_per_request, valid_services, distinct_after, Input, array, no_array, sanitize_services,
  room_of, join, leave, join_all, leave_all, on_subscribe, on_unsubscribe, receives,
}

abbrev pub IsName : Text → Type 0
IsName service = is_name 63 service ≡ true

valid_services-IsName : (input : List Value) → All IsName (valid_services input)
unfolding valid_services
valid_services-IsName [] = tt
valid_services-IsName (text service ∷ input) = ground (arith, valid_services-IsName input)
valid_services-IsName (value ∷ input) = valid_services-IsName input

distinct_after-IsName :
    (seen services : List Text) → All IsName services → All IsName (distinct_after seen services)
unfolding distinct_after
distinct_after-IsName seen [] h = tt
distinct_after-IsName seen (service ∷ services) (n, h) = ground (
  arith,
  distinct_after-IsName seen services h,
  distinct_after-IsName (service ∷ seen) services h,
)

abbrev pub IsUnseen : List Text → Text → Type 0
IsUnseen seen service = contains service seen ≡ false

-- No text occurs twice.
abbrev pub IsDistinct : List Text → Type 0
IsDistinct [] = Unit
IsDistinct (service ∷ services) =
    All (λ s. text_beq service s ≡ false) services × IsDistinct services

IsUnseen-drop :
    (service : Text) (seen services : List Text)
    → All (IsUnseen (service ∷ seen)) services
    → All (λ s. text_beq service s ≡ false) services × All (IsUnseen seen) services
IsUnseen-drop service seen [] h = (tt, tt)
IsUnseen-drop service seen (s ∷ services) (u, h) =
    let (a, b) = IsUnseen-drop service seen services h in ((ground arith, a), (ground arith, b))

distinct_after-IsDistinct :
    (seen services : List Text)
    → All (IsUnseen seen) (distinct_after seen services) × IsDistinct (distinct_after seen services)
unfolding distinct_after
distinct_after-IsDistinct seen [] = (tt, tt)
distinct_after-IsDistinct seen (service ∷ services) = elim (Bool-cases (contains service seen)) [
  | inl e ↦ ground (arith, distinct_after-IsDistinct seen services)
  | inr e ↦
      let (u, d) = distinct_after-IsDistinct (service ∷ seen) services in
      let (a, b) = IsUnseen-drop service seen (distinct_after (service ∷ seen) services) u in
      (ground arith, ground arith)
]

take-IsDistinct :
    (n : ℕ) (services : List Text) → IsDistinct services → IsDistinct (take n services)
take-IsDistinct zero services d = tt
take-IsDistinct (suc n) [] d = tt
take-IsDistinct (suc n) (service ∷ services) (a, d) =
    (All-take (λ s. text_beq service s ≡ false) n services a, take-IsDistinct n services d)

-- Whatever a client sends, at most fifty rooms are joined or left, each once, and their names are
-- well formed.
pub sanitize_services-IsDistinct :
    (input : Input)
    → (length (sanitize_services input) ≤ max_rooms_per_request)
      × All IsName (sanitize_services input)
      × IsDistinct (sanitize_services input)
unfolding sanitize_services
sanitize_services-IsDistinct no_array = (omega arith, tt, tt)
sanitize_services-IsDistinct (array input) =
    let services = distinct_after [] (valid_services input) in
    (
      omega (arith, length-take max_rooms_per_request services),
      All-take IsName max_rooms_per_request services
          (distinct_after-IsName [] (valid_services input) (valid_services-IsName input)),
      take-IsDistinct max_rooms_per_request services
          (distinct_after-IsDistinct [] (valid_services input)).1,
    )

receives-note :
    (service : Text) (rooms : List Text) (room : Text)
    → contains service (rooms ++ room ∷ []) ≡ (contains service rooms || room == service)
receives-note service [] room = ground arith
receives-note service (r ∷ rooms) room = ground (arith, receives-note service rooms room)

contains-join :
    (x room : Text) (rooms : List Text)
    → contains x (join room rooms) ≡ ((room == x) || contains x rooms)
contains-join x room rooms = elim (Bool-cases (room == x)) [
  | inl e ↦ ground (arith, text_beq_iff room x, receives-note x rooms room)
  | inr e ↦ ground (arith, receives-note x rooms room)
]

contains-leave :
    (x room : Text) (rooms : List Text)
    → contains x (leave room rooms) ≡ (not (room == x) && contains x rooms)
contains-leave x room [] = ground arith
contains-leave x room (r ∷ rooms) =
    ground (
      arith,
      text_beq_iff room x,
      text_beq_iff r x,
      text_beq_iff room r,
      contains-leave x room rooms,
    )

receives-join_all :
    (service : Text) (services rooms : List Text)
    → receives service (join_all services rooms)
      ≡ (contains service services || receives service rooms)
unfolding join_all
receives-join_all service [] rooms = refl
receives-join_all service (s ∷ services) rooms = ground (
  arith,
  receives-join_all service services (join (room_of s) rooms),
  contains-join (room_of service) (room_of s) rooms,
)

receives-leave_all :
    (service : Text) (services rooms : List Text)
    → receives service (leave_all services rooms)
      ≡ (not (contains service services) && receives service rooms)
unfolding leave_all
receives-leave_all service [] rooms = refl
receives-leave_all service (s ∷ services) rooms = ground (
  arith,
  receives-leave_all service services (leave (room_of s) rooms),
  contains-leave (room_of service) (room_of s) rooms,
)

-- After a request a socket receives the updates of a service exactly when it subscribed to it
-- now, or received them before and did not unsubscribe from it now.
pub receives_iff :
    (service : Text) (input : Input) (rooms : List Text)
    → (receives service (on_subscribe input rooms).0
        ≡ (contains service (sanitize_services input) || receives service rooms))
      × (receives service (on_unsubscribe input rooms).0
          ≡ (not (contains service (sanitize_services input)) && receives service rooms))
unfolding on_subscribe on_unsubscribe
receives_iff service input rooms = (
  receives-join_all service (sanitize_services input) rooms,
  receives-leave_all service (sanitize_services input) rooms,
)
