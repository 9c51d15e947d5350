-- ===== src/Logs/Service/Limit.antt =====
-- The limit of sessions for each socket, for calls that run one after another.
use core_dashboard.Prelude.{
  ℕ, ◌≤◌, ◌≡◌, ◌≢◌, refl, ap, subst, Bool, true, false, Option, none, some, List, [], ◌∷◌, arith,
  Text, Lacks, Option-cases, Bool-cases, inl, inr, filter, All, text_beq_iff, text_beq,
}
use core_dashboard.Shared.Values.{Value, text, undefined}
use core_dashboard.Logs.Service.{
  max_sessions_per_socket, Request, fields, Parsed, LogsService, init, key, owned_by, get,
  session_count_for, key_of, close_session, Begun, answered, searching, subscribe_begin,
  subscribe_found, subscribe_opened, subscribe_session, subscribe_rest, subscribe, close_found,
  unsubscribe, close_all, destroy_for_socket,
}
use core_dashboard.Logs.Service.Keys.{owned_by-key_ne, count, one_if, count-set, count-delete-le}

-- No socket has more than the maximum. Socket ids hold no bar.
abbrev pub WithinLimit : LogsService → Type 0
WithinLimit s =
    (socket : Text) → Lacks b'|' socket → session_count_for socket s ≤ max_sessions_per_socket

session_count-close :
    (socket : Text) (id : ℕ) (s : LogsService)
    → session_count_for socket (close_session id s) ≤ session_count_for socket s
unfolding session_count_for close_session
session_count-close socket id s = elim (Option-cases (key_of id s.live)) [
  | inl gone ↦ rw (gone, close_session) (omega arith)
  | inr (k, found) ↦ rw (found, close_session) (count-delete-le socket k s.sessions)
]

-- What `subscribe_begin` has tested when it goes on to the inventory.
begin_free :
    (socket : Text) (request : Request) (s : LogsService) (parsed : Parsed)
    → subscribe_begin socket request s ≡ searching parsed
    → (get (key socket parsed.container) s.sessions ≡ none) × (session_count_for socket s ≤ 2)
unfolding subscribe_begin
begin_free socket request s parsed e = ground arith

one_if-le : (b : Bool) → one_if b ≤ 1
one_if-le true = omega arith
one_if-le false = omega arith

found-WithinLimit :
    (socket container : Text) (managed : Bool) (s : LogsService)
    → Lacks b'|' socket
    → WithinLimit s
    → get (key socket container) s.sessions ≡ none
    → session_count_for socket s ≤ 2
    → WithinLimit (subscribe_found socket container managed s).1
unfolding subscribe_found session_count_for
found-WithinLimit socket container false s l w g c = w
found-WithinLimit socket container true s l w g c = λ other k.
    let added = count-set other (key socket container) s.next s.sessions g in
    elim (Bool-cases (text_beq socket other)) [
      | inl same ↦
          let room = subst (λ t. count t s.sessions ≤ 2) ((text_beq_iff socket other).0 same) c in
          omega (arith, added, one_if-le (owned_by other (key socket container, s.next)))
      | inr differ ↦
          let e : socket ≢ other = λ p. cc (differ, (text_beq_iff socket other).1 p) in
          let foreign = owned_by-key_ne socket other container s.next l k e in
          omega (arith, added, ap one_if foreign, w other k)
    ]

opened-WithinLimit :
    (id : ℕ) (opened : Bool) (s : LogsService)
    → WithinLimit s
    → WithinLimit (subscribe_opened id opened s).1
unfolding subscribe_opened
opened-WithinLimit id true s w = w
opened-WithinLimit id false s w =
    λ socket l. omega (arith, session_count-close socket id s, w socket l)

session-WithinLimit :
    (opened : Bool) (r : Option ℕ × LogsService)
    → WithinLimit r.1
    → WithinLimit (subscribe_session opened r).1
session-WithinLimit opened (none, s) w = w
session-WithinLimit opened (some id, s) w = opened-WithinLimit id opened s w

-- A subscription that nothing interrupts keeps the limit.
pub subscribe-WithinLimit :
    (socket : Text) (request : Request) (managed opened : Bool) (s : LogsService)
    → Lacks b'|' socket
    → WithinLimit s
    → WithinLimit (subscribe socket request managed opened s).1
unfolding subscribe
subscribe-WithinLimit socket request managed opened s l w =
    rest (subscribe_begin socket request s) refl
  where
    rest :
        (b : Begun)
        → subscribe_begin socket request s ≡ b
        → WithinLimit (subscribe_rest socket managed opened b s).1
    rest (answered ack) e = w
    rest (searching parsed) e =
        let (free, room) = begin_free socket request s parsed e in
        session-WithinLimit opened (subscribe_found socket parsed.container managed s)
          (found-WithinLimit socket parsed.container managed s l w free room)

close_all-WithinLimit :
    (entries : List (Text × ℕ)) (s : LogsService)
    → WithinLimit s
    → WithinLimit (close_all entries s)
unfolding close_all
close_all-WithinLimit [] s w = w
close_all-WithinLimit ((k, id) ∷ entries) s w =
    close_all-WithinLimit entries (close_session id s)
      (λ socket l. omega (arith, session_count-close socket id s, w socket l))

close_found-WithinLimit :
    (o : Option ℕ) (s : LogsService) → WithinLimit s → WithinLimit (close_found o s)
close_found-WithinLimit none s w = w
close_found-WithinLimit (some id) s w =
    λ socket l. omega (arith, session_count-close socket id s, w socket l)

-- A call of the service that runs to its end with nothing in between; `closes` is a session whose
-- stream failed or ended, or whose client did not ack.
pub data Call : Type 0 where
  subscribes : Text → Request → Bool → Bool → Call
  unsubscribes : Text → Value → Call
  disconnects : Text → Call
  closes : ℕ → Call

pub call : Call → LogsService → LogsService
call (subscribes socket request managed opened) s = (subscribe socket request managed opened s).1
call (unsubscribes socket container) s = (unsubscribe socket (fields container undefined) s).1
call (disconnects socket) s = destroy_for_socket socket s
call (closes id) s = close_session id s

pub calls : List Call → LogsService → LogsService
calls [] s = s
calls (c ∷ cs) s = calls cs (call c s)

-- The ids that Socket.IO gives to sockets hold no bar.
abbrev pub HasPlainId : Call → Type 0
HasPlainId (subscribes socket request managed opened) = Lacks b'|' socket
HasPlainId _ = Unit

unsubscribe-WithinLimit :
    (socket : Text) (container : Value) (s : LogsService)
    → WithinLimit s
    → WithinLimit (unsubscribe socket (fields container undefined) s).1
unfolding unsubscribe
unsubscribe-WithinLimit socket (text container) s w =
    close_found-WithinLimit (get (key socket container) s.sessions) s w
unsubscribe-WithinLimit socket _ s w = w

call-WithinLimit :
    (c : Call) (s : LogsService) → HasPlainId c → WithinLimit s → WithinLimit (call c s)
unfolding call
call-WithinLimit (subscribes socket request managed opened) s l w =
    subscribe-WithinLimit socket request managed opened s l w
call-WithinLimit (unsubscribes socket container) s l w =
    unsubscribe-WithinLimit socket container s w
call-WithinLimit (disconnects socket) s l w =
    unfold destroy_for_socket in close_all-WithinLimit (filter (owned_by socket) s.sessions) s w
call-WithinLimit (closes id) s l w =
    λ socket k. omega (arith, session_count-close socket id s, w socket k)

calls-WithinLimit :
    (cs : List Call) (s : LogsService)
    → All HasPlainId cs
    → WithinLimit s
    → WithinLimit (calls cs s)
unfolding calls
calls-WithinLimit [] s a w = w
calls-WithinLimit (c ∷ cs) s (l, a) w = calls-WithinLimit cs (call c s) a (call-WithinLimit c s l w)

-- However many calls, in any order and with any requests and outcomes, as long as each runs to its
-- end before the next Begins: no socket ever has more than three open log sessions in the map.
pub calls_limit :
    (cs : List Call) (socket : Text)
    → All HasPlainId cs
    → Lacks b'|' socket
    → session_count_for socket (calls cs init) ≤ max_sessions_per_socket
calls_limit cs socket a l =
    calls-WithinLimit cs init a (λ other k. unfold session_count_for in omega arith) socket l
