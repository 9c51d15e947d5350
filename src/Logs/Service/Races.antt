-- ===== src/Logs/Service/Races.antt =====
-- Subscriptions that overlap: the tests on the map are made before the inventory is awaited, and
-- not again after it.
use core_dashboard.Prelude.{
  ℕ, ◌+◌, ◌≡◌, ◌≢◌, refl, ap, ◌∙◌, true, none, some, List, [], ◌∷◌, arith, Text, text_equality,
  text_beq_iff, length, All,
}
use core_dashboard.Shared.Values.{text, undefined, is_name}
use core_dashboard.Logs.Service.{
  default_tail, fields, parse_request, LogsService, init, key, owned_by, get, set, delete,
  session_count_for, key_of, close_session, searching, subscribe_begin, subscribe_found, close_all,
  destroy_for_socket,
}
use core_dashboard.Logs.Service.Keys.{owned_by-key, one_if, count-set}

-- The inventory answers one pending subscription after another: every container is known.
pub found_all : Text → List Text → LogsService → LogsService
found_all socket [] s = s
found_all socket (container ∷ containers) s =
    found_all socket containers (subscribe_found socket container true s).1

-- Names that all differ.
abbrev pub AreDistinct : List Text → Type 0
AreDistinct [] = Unit
AreDistinct (x ∷ xs) = All (λ y. y ≢ x) xs × AreDistinct xs

key-injective : (socket c d : Text) → key socket c ≡ key socket d → c ≡ d
key-injective [] c d e = ground arith
key-injective (x ∷ socket) c d e = key-injective socket c d (ground arith)

get-set_ne : (k j : Text) (id : ℕ) (m : List (Text × ℕ)) → j ≢ k → get j (set k id m) ≡ get j m
unfolding get set
get-set_ne k j id [] n = ground (arith, text_beq_iff k j)
get-set_ne k j id ((i, old) ∷ m) n =
    ground (arith, text_beq_iff i k, text_beq_iff i j, text_beq_iff k j, get-set_ne k j id m)

abbrev Free : Text → LogsService → Text → Type 0
Free socket s container = get (key socket container) s.sessions ≡ none

found-Free :
    (socket c : Text) (s : LogsService) (d : Text)
    → d ≢ c
    → Free socket s d
    → Free socket (subscribe_found socket c true s).1 d
unfolding subscribe_found
found-Free socket c s d n f =
    get-set_ne (key socket c) (key socket d) s.next s.sessions (λ e. n (key-injective socket d c e))
    ∙ f

All-found :
    (socket c : Text) (s : LogsService) (ds : List Text)
    → All (λ d. d ≢ c) ds
    → All (Free socket s) ds
    → All (Free socket (subscribe_found socket c true s).1) ds
All-found socket c s [] a f = tt
All-found socket c s (d ∷ ds) (n, a) (f, fs) =
    (found-Free socket c s d n f, All-found socket c s ds a fs)

count_found :
    (socket c : Text) (s : LogsService)
    → Free socket s c
    → session_count_for socket (subscribe_found socket c true s).1 ≡ session_count_for socket s + 1
unfolding subscribe_found session_count_for
count_found socket c s f = omega (
  arith,
  count-set socket (key socket c) s.next s.sessions f,
  ap one_if (owned_by-key socket c s.next),
)

count_found_all :
    (socket : Text) (cs : List Text) (s : LogsService)
    → AreDistinct cs
    → All (Free socket s) cs
    → session_count_for socket (found_all socket cs s) ≡ session_count_for socket s + length cs
unfolding found_all
count_found_all socket [] s d f = omega arith
count_found_all socket (c ∷ cs) s (n, d) (f, fs) = omega (
  arith,
  count_found socket c s f,
  count_found_all socket cs (subscribe_found socket c true s).1 d (All-found socket c s cs n fs),
)

abbrev pub Begins : Text → Text → Type 0
Begins socket c =
    subscribe_begin socket (fields (text c) undefined) init
    ≡ searching (record { container = c; tail = default_tail })

All-Begins :
    (socket : Text) (cs : List Text) → All (λ c. is_name 127 c ≡ true) cs → All (Begins socket) cs
All-Begins socket [] a = tt
All-Begins socket (c ∷ cs) (h, a) = (
  unfold subscribe_begin parse_request get session_count_for in ground arith,
  All-Begins socket cs a,
)

All-Free : (socket : Text) (cs : List Text) → All (Free socket init) cs
All-Free socket [] = tt
All-Free socket (c ∷ cs) = (unfold get in refl, All-Free socket cs)

count-init : (socket : Text) → session_count_for socket init ≡ 0
unfolding session_count_for
count-init socket = refl

-- Overlapping subscriptions defeat the limit. One client asks for any number of distinct containers
-- with well-formed names, and all the requests reach the service before the inventory answers: each
-- passes the test of the limit, and in the end the client has a session for every one.
pub limit_race :
    (socket : Text) (containers : List Text)
    → All (λ c. is_name 127 c ≡ true) containers
    → AreDistinct containers
    → All (Begins socket) containers
      × (session_count_for socket (found_all socket containers init) ≡ length containers)
limit_race socket cs a d = (
  All-Begins socket cs a,
  count_found_all socket cs init d (All-Free socket cs)
      ∙ ap (λ n. n + length cs) (count-init socket)
      ∙ omega arith,
)

-- The state after two overlapping subscriptions to one container.
abbrev pub doubled : Text → Text → LogsService
doubled socket container =
    (subscribe_found socket container true (subscribe_found socket container true init).1).1

sessions-doubled :
    (socket container : Text) → (doubled socket container).sessions ≡ (key socket container, 1) ∷ []
unfolding subscribe_found set
sessions-doubled socket container =
    ground (arith, text_beq_iff (key socket container) (key socket container))

live-doubled :
    (socket container : Text)
    → (doubled socket container).live ≡ (1, key socket container) ∷ (0, key socket container) ∷ []
unfolding subscribe_found
live-doubled socket container = refl

close-doubled :
    (k : Text) (s : LogsService)
    → s.sessions ≡ (k, 1) ∷ []
    → s.live ≡ (1, k) ∷ (0, k) ∷ []
    → ((close_session 1 s).sessions ≡ []) × ((close_session 1 s).live ≡ (0, k) ∷ [])
unfolding close_session key_of delete
close-doubled k s e f = ground (arith, text_beq_iff k k)

destroy_one :
    (socket k : Text) (id : ℕ) (s : LogsService)
    → s.sessions ≡ (k, id) ∷ []
    → owned_by socket (k, id) ≡ true
    → destroy_for_socket socket s ≡ close_session id s
unfolding destroy_for_socket close_all
destroy_one socket k id s e o = ground arith

-- Two overlapping subscriptions of one client to one container, both past the test of the map,
-- leave a session that the map has lost: when the client disconnects, the map is emptied and that
-- session is still open.
pub overlap_leaks :
    (socket container : Text)
    → ((destroy_for_socket socket (doubled socket container)).sessions ≡ [])
      × (key_of 0 (destroy_for_socket socket (doubled socket container)).live
          ≡ some (key socket container))
overlap_leaks socket container =
    let k = key socket container in
    let s = doubled socket container in
    let closing =
      destroy_one socket k 1 s (sessions-doubled socket container)
        (owned_by-key socket container 1) in
    let (empty, left) =
      close-doubled k s (sessions-doubled socket container) (live-doubled socket container) in
    rw closing (empty, rw left (unfold key_of in refl))
