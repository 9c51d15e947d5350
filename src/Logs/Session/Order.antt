-- ===== src/Logs/Session/Order.antt =====
-- The order of the lines that a client is sent.
use core_dashboard.Prelude.{
  ◌≡◌, refl, sym, subst, Bool, true, false, List, [], ◌∷◌, ◌++◌, append_assoc, append-nil, arith,
  length, length-eq-zero, if◌then◌else◌, leb, take, drop, take-append-drop, inl, inr, Bool-cases,
  IsSubsequence, IsSubsequence-refl, IsSubsequence-nil, IsSubsequence-append, IsSubsequence-trans,
  IsSubsequence-drop, IsSubsequence-grow,
}
use core_dashboard.Shared.Events.{LogLine}
use core_dashboard.Logs.Session.{
  LogSessionOptions, LogSession, new, attach_source, close, maybe_finish_ending, end, relieve,
  send_batch, finish, continue_flush, flush, make_room, press, enqueue, push, acked, timed_out,
  Event, pushed, attached, ended, cancelled, settled, expired, step, run,
}
use core_dashboard.Logs.Session.Measures.{sent, history, taken, accepted}

pub history-send_batch : (s : LogSession) → history (send_batch s) ≡ history s
unfolding send_batch relieve
history-send_batch s =
    let n = s.options.batch_size in
    ground (
      arith,
      append_assoc (sent s.effects) (take n s.queue) (drop n s.queue),
      take-append-drop n s.queue,
    )

pub history-finish : (s : LogSession) → history (finish s) ≡ history s
unfolding finish maybe_finish_ending close
history-finish s = ground (arith, length-eq-zero s.queue)

pub history-continue_flush : (s : LogSession) → history (continue_flush s) ≡ history s
unfolding continue_flush
history-continue_flush s = ground (arith, history-send_batch s, history-finish s)

history-flush : (s : LogSession) → history (flush s) ≡ history s
unfolding flush
history-flush s = ground (arith, history-continue_flush (record s { sending = true }))

history-press : (s : LogSession) → history (press s) ≡ history s
unfolding press
history-press s = ground arith

make_room-IsSubsequence : (s : LogSession) → IsSubsequence (history (make_room s)) (history s)
unfolding make_room
make_room-IsSubsequence s = elim (Bool-cases (leb s.options.max_queue (length s.queue))) [
  | inl full ↦
      rw full
        (IsSubsequence-append (IsSubsequence-refl (sent s.effects)) (IsSubsequence-drop 1 s.queue))
  | inr room ↦ rw room (IsSubsequence-refl (history s))
]

history-enqueue :
    (line : LogLine) (s : LogSession) → history (enqueue line s) ≡ history s ++ line ∷ []
history-enqueue line s = sym (append_assoc (sent s.effects) s.queue (line ∷ []))

history-close_open : (s : LogSession) → s.closed ≡ false → history (close s) ≡ sent s.effects ++ []
unfolding close
history-close_open s h = ground arith

close_closed : (s : LogSession) → s.closed ≡ true → close s ≡ s
unfolding close
close_closed s h = ground arith

close-IsSubsequence : (s : LogSession) → IsSubsequence (history (close s)) (history s)
close-IsSubsequence s = elim (Bool-cases s.closed) [
  | inl shut ↦ rw (close_closed s shut) (IsSubsequence-refl (history s))
  | inr open_ ↦
      rw (history-close_open s open_)
        (IsSubsequence-append (IsSubsequence-refl (sent s.effects)) (IsSubsequence-nil s.queue))
]

push-IsSubsequence :
    (line : LogLine) (s : LogSession)
    → s.closed ≡ false
    → IsSubsequence (history (push line s)) (history s ++ line ∷ [])
unfolding push
push-IsSubsequence line s h =
    let t = enqueue line (make_room s) in
    let same : history (push line s) ≡ history (make_room s) ++ line ∷ [] =
      ground
        (arith, history-flush (press t), history-press t, history-enqueue line (make_room s)) in
    subst (λ l. IsSubsequence l (history s ++ line ∷ [])) (sym same)
      (IsSubsequence-grow (line ∷ []) (make_room-IsSubsequence s))

-- Nothing taken: the history is a part of what it was.
quiet : {xs ys : List LogLine} → IsSubsequence xs ys → IsSubsequence xs (ys ++ [])
quiet h = rw append-nil h

same : {xs ys : List LogLine} → xs ≡ ys → IsSubsequence xs (ys ++ [])
same {ys} e = rw (append-nil, e) (IsSubsequence-refl ys)

history-end : (s : LogSession) → history (end s) ≡ history s
unfolding end maybe_finish_ending close
history-end s = ground (arith, length-eq-zero s.queue)

history-attach_source : (s : LogSession) → history (attach_source s) ≡ history s
unfolding attach_source
history-attach_source s = ground arith

timed_out-IsSubsequence : (s : LogSession) → IsSubsequence (history (timed_out s)) (history s)
unfolding timed_out
timed_out-IsSubsequence s = rw (history-finish (close s)) (close-IsSubsequence s)

expire-IsSubsequence :
    (s : LogSession) (b : Bool)
    → IsSubsequence (history (if b then timed_out s else s)) (history s ++ [])
expire-IsSubsequence s true = quiet (timed_out-IsSubsequence s)
expire-IsSubsequence s false = same refl

push_closed :
    (line : LogLine) (s : LogSession) → s.closed ≡ true → history (push line s) ≡ history s
unfolding push
push_closed line s h = ground arith

step-IsSubsequence :
    (e : Event) (s : LogSession)
    → IsSubsequence (history (step e s)) (history s ++ taken e s.closed)
unfolding step
step-IsSubsequence (pushed line) s = elim (Bool-cases s.closed) [
  | inl shut ↦
      let none_taken : taken (pushed line) s.closed ≡ [] = cc shut in
      rw none_taken (same (push_closed line s shut))
  | inr open_ ↦
      let one_taken : taken (pushed line) s.closed ≡ line ∷ [] = cc open_ in
      rw one_taken (push-IsSubsequence line s open_)
]
step-IsSubsequence attached s = same (history-attach_source s)
step-IsSubsequence ended s = same (history-end s)
step-IsSubsequence cancelled s = quiet (close-IsSubsequence s)
step-IsSubsequence settled s = same (unfold acked in ground (arith, history-continue_flush s))
step-IsSubsequence expired s = expire-IsSubsequence s s.sending

run_from-IsSubsequence :
    (es : List Event) (s : LogSession)
    → IsSubsequence (history (run es s)) (history s ++ accepted es s)
unfolding run
run_from-IsSubsequence [] s = rw append-nil (IsSubsequence-refl (history s))
run_from-IsSubsequence (e ∷ es) s =
    IsSubsequence-trans
      (rw (← append_assoc (history s) (taken e s.closed) (accepted es (step e s)))
        (IsSubsequence-grow (accepted es (step e s)) (step-IsSubsequence e s)))
      (run_from-IsSubsequence es (step e s))

-- Whatever the events and their order: the lines emitted to the client, followed by those still in
-- the queue, are lines that the session took in, in the order in which the source produced them,
-- none twice and none made up.
pub run-IsSubsequence :
    (o : LogSessionOptions) (es : List Event)
    → IsSubsequence (sent (run es (new o)).effects ++ (run es (new o)).queue) (accepted es (new o))
run-IsSubsequence o es = unfold new in run_from-IsSubsequence es (new o)
