-- ===== src/Logs/Session/Drain.antt =====
-- A source that ends in the ordinary way, and what is queued then.
use core_dashboard.Prelude.{
  ℕ, zero, suc, ◌≤◌, ◌<◌, ◌≡◌, refl, ap, ◌∙◌, true, false, List, [], ◌∷◌, ◌++◌, append-nil, arith,
  length, length-drop, length-eq-zero, replicate, inl, inr, Bool-cases, leb, leb→le, sym,
}
use core_dashboard.Shared.Events.{LogLine}
use core_dashboard.Logs.Session.{
  LogSession, close, maybe_finish_ending, end, relieve, send_batch, finish, continue_flush, acked,
  ended, settled, step, run,
}
use core_dashboard.Logs.Session.Measures.{sent, history}
use core_dashboard.Logs.Session.Invariant.{IsValid}
use core_dashboard.Logs.Session.Order.{history-continue_flush}

step-settled_idle : (s : LogSession) → s.sending ≡ false → step settled s ≡ s
unfolding step
step-settled_idle s h = ground arith

-- With nothing in flight there is no promise to settle.
run-settled_idle : (n : ℕ) (s : LogSession) → s.sending ≡ false → run (replicate n settled) s ≡ s
unfolding run
run-settled_idle zero s h = refl
run-settled_idle (suc n) s h =
    ap (run (replicate n settled)) (step-settled_idle s h) ∙ run-settled_idle n s h

step-settled_sending : (s : LogSession) → s.sending ≡ true → step settled s ≡ continue_flush s
unfolding step acked
step-settled_sending s h = ground arith

-- The loop of an ended session goes on while lines are left ...
continue_flush-more :
    (s : LogSession)
    → 1 ≤ s.options.batch_size
    → s.closed ≡ false
    → 1 ≤ length s.queue
    → (length (continue_flush s).queue < length s.queue)
      × ((continue_flush s).closed ≡ false)
      × ((continue_flush s).sending ≡ s.sending)
      × ((continue_flush s).ending ≡ s.ending)
      × ((continue_flush s).options ≡ s.options)
unfolding continue_flush send_batch relieve
continue_flush-more s b h q = ground (arith, length-drop s.options.batch_size s.queue)

-- ... and closes it when none is.
continue_flush-last :
    (s : LogSession)
    → s.closed ≡ false
    → s.ending ≡ true
    → length s.queue ≡ 0
    → ((continue_flush s).closed ≡ true)
      × ((continue_flush s).sending ≡ false)
      × ((continue_flush s).queue ≡ [])
unfolding continue_flush finish maybe_finish_ending close
continue_flush-last s h e q = ground arith

-- A closed session with nothing left to send, that has sent `l`.
abbrev pub HasSent : List LogLine → LogSession → Type 0
HasSent l s = (s.closed ≡ true) × (s.queue ≡ []) × (sent s.effects ≡ l)

sent-last : (s t : LogSession) → t.queue ≡ [] → history t ≡ history s → sent t.effects ≡ history s
sent-last s t e h = sym (append-nil (sent t.effects)) ∙ ap (◌++◌ (sent t.effects)) (sym e) ∙ h

run-settled :
    (n : ℕ) (s : LogSession)
    → s.sending ≡ true
    → run (replicate (suc n) settled) s ≡ run (replicate n settled) (continue_flush s)
unfolding run
run-settled n s h = ap (run (replicate n settled)) (step-settled_sending s h)

drain :
    (n : ℕ) (s : LogSession)
    → 1 ≤ s.options.batch_size
    → s.closed ≡ false
    → s.sending ≡ true
    → s.ending ≡ true
    → length s.queue < n
    → HasSent (history s) (run (replicate n settled) s)
drain zero s b c f e h = elim h [ ]
drain (suc n) s b c f e h =
    let t = continue_flush s in
    rw (run-settled n s f) (elim (Bool-cases (leb 1 (length s.queue))) [
      | inl more ↦
          let (less, open_, going, ends, same) = continue_flush-more s b c (leb→le 1 _ more) in
          rw (← history-continue_flush s)
            (drain n t (rw same b) open_ (going ∙ f) (ends ∙ e) (omega arith))
      | inr none_left ↦
          let (shut, rest, empty) = continue_flush-last s c e (ground arith) in
          rw (run-settled_idle n t rest)
            (shut, empty, sent-last s t empty (history-continue_flush s))
    ])

-- Where a session stands after the end of its source.
end_idle :
    (s : LogSession)
    → IsValid s
    → s.closed ≡ false
    → s.ending ≡ false
    → s.sending ≡ false
    → HasSent (history s) (end s) × ((end s).sending ≡ false)
unfolding end maybe_finish_ending close
end_idle s v c e h = ground (arith, length-eq-zero s.queue, append-nil (sent s.effects))

end_sending :
    (s : LogSession)
    → s.closed ≡ false
    → s.ending ≡ false
    → s.sending ≡ true
    → end s ≡ record s { ending = true; has_source = false }
unfolding end maybe_finish_ending
end_sending s c e h = ground arith

run-end :
    (n : ℕ) (s : LogSession)
    → run (ended ∷ replicate n settled) s ≡ run (replicate n settled) (end s)
unfolding run step
run-end n s = refl

-- When the source of an open session ends, and the client acks each batch it is sent, the session
-- closes itself after more acks than it has lines queued, and by then it has emitted exactly what
-- it had emitted before and the whole queue after that, in order.
pub run-ended :
    (s : LogSession) (n : ℕ)
    → IsValid s
    → 1 ≤ s.options.batch_size
    → s.closed ≡ false
    → s.ending ≡ false
    → length s.queue < n
    → HasSent (sent s.effects ++ s.queue) (run (ended ∷ replicate n settled) s)
run-ended s n v b c e h = elim (Bool-cases s.sending) [
  | inl busy ↦
      let t = record s { ending = true; has_source = false } in
      let to_t = run-end n s ∙ ap (run (replicate n settled)) (end_sending s c e busy) in
      rw to_t (drain n t b c busy refl h)
  | inr idle ↦
      let (all_sent, rest) = end_idle s v c e idle in
      rw (run-end n s ∙ run-settled_idle n (end s) rest) all_sent
]
