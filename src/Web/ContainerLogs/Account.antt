-- ===== src/Web/ContainerLogs/Account.antt =====
-- From the session to the viewer: where every line of a container is.
use core_dashboard.Prelude.{
  ◌+◌, ◌≤◌, ◌≡◌, ◌∙◌, refl, ap, subst, ◌⊎◌, String, Bool, true, false, some, List, [], ◌∷◌, ◌++◌,
  arith, all, length, length-append, all-append, if◌then◌else◌, ◌==◌, string_equality, drop,
}
use core_dashboard.Shared.Events.{LogLine, LogsBatch}
use core_dashboard.Shared.Maps.{beq_refl}
use core_dashboard.Logs.Session.{
  Effect, pause_source, resume_source, destroy_source, on_close, emit, LogSessionOptions,
  LogSession, new, attach_source, close, maybe_finish_ending, end, relieve, send_batch, finish,
  continue_flush, flush, make_room, press, enqueue, push, acked, timed_out, Event, pushed, attached,
  ended, cancelled, settled, expired, step, run,
}
use core_dashboard.Logs.Session.Invariant.{options-step}
use core_dashboard.Logs.Session.Accounting.{is_gentle, account-run-new}
use core_dashboard.Logs.Session.Measures
use core_dashboard.Logs.Session.Measures.{reported, accepted}
use core_dashboard.Web.Live.{empty_logs_buffer, append_batch, append_all}
use core_dashboard.Web.Live.Lists.{sent, append_all-length}
use core_dashboard.Web.ContainerLogs.{
  ContainerLogs, max_lines, show_batch, acks, on_batch, on_batches, is_for,
}

-- The batches of the effects, the first one first.
abbrev pub emitted : List Effect → List LogsBatch
emitted [] = []
emitted (emit batch timeout ∷ es) = emitted es ++ batch ∷ []
emitted (_ ∷ es) = emitted es

-- Whether every batch names the container.
abbrev is_own : String → Effect → Bool
is_own c (emit batch timeout) = batch.container == c
is_own c _ = true

abbrev own : LogSession → Bool
own s = all (is_own s.options.container) s.effects

own-relieve : (s : LogSession) → own (relieve s) ≡ own s
unfolding relieve
own-relieve s = ground arith

own-press : (s : LogSession) → own (press s) ≡ own s
unfolding press
own-press s = ground arith

own-close : (s : LogSession) → own (close s) ≡ own s
unfolding close
own-close s = ground arith

own-maybe_finish_ending : (s : LogSession) → own (maybe_finish_ending s) ≡ own s
unfolding maybe_finish_ending
own-maybe_finish_ending s = ground (arith, own-close s)

options-relieve : (s : LogSession) → (relieve s).options ≡ s.options
unfolding relieve
options-relieve s = ground arith

own-send_batch : (s : LogSession) → own (send_batch s) ≡ own s
unfolding send_batch
own-send_batch s =
    let t = record s { queue = drop s.options.batch_size s.queue; dropped = 0 } in
    ground (arith, own-relieve t, options-relieve t, beq_refl s.options.container)

own-continue_flush : (s : LogSession) → own (continue_flush s) ≡ own s
unfolding continue_flush finish
own-continue_flush s =
    ground (arith, own-send_batch s, own-maybe_finish_ending (record s { sending = false }))

own-flush : (s : LogSession) → own (flush s) ≡ own s
unfolding flush
own-flush s = ground (arith, own-continue_flush (record s { sending = true }))

own-push : (line : LogLine) (s : LogSession) → own (push line s) ≡ own s
unfolding push make_room
own-push line s =
    let t = enqueue line (make_room s) in ground (arith, own-flush (press t), own-press t)

own-step : (e : Event) (s : LogSession) → own (step e s) ≡ own s
unfolding step
own-step (pushed line) s = own-push line s
own-step attached s = unfold attach_source in ground arith
own-step ended s =
    unfold end in
    ground (arith, own-maybe_finish_ending (record s { ending = true; has_source = false }))
own-step cancelled s = own-close s
own-step settled s = unfold acked in ground (arith, own-continue_flush s)
own-step expired s =
    unfold timed_out finish in
    ground (arith, own-close s, own-maybe_finish_ending (record (close s) { sending = false }))

own-run : (es : List Event) (s : LogSession) → own (run es s) ≡ own s
unfolding run
own-run [] s = refl
own-run (e ∷ es) s = own-run es (step e s) ∙ own-step e s

options-run : (es : List Event) (s : LogSession) → (run es s).options ≡ s.options
unfolding run
options-run [] s = refl
options-run (e ∷ es) s = options-run es (step e s) ∙ options-step e s

-- The viewer takes the batches of its container.
abbrev names : String → LogsBatch → Bool
names c batch = batch.container == c

emitted-names :
    (c : String) (effects : List Effect)
    → all (is_own c) effects ≡ true
    → all (names c) (emitted effects) ≡ true
emitted-names c [] h = refl
emitted-names c (emit batch timeout ∷ es) h =
    all-append (names c) (emitted es) (batch ∷ []) ∙ ground (arith, emitted-names c es)
emitted-names c (pause_source ∷ es) h = emitted-names c es (ground arith)
emitted-names c (resume_source ∷ es) h = emitted-names c es (ground arith)
emitted-names c (destroy_source ∷ es) h = emitted-names c es (ground arith)
emitted-names c (on_close ∷ es) h = emitted-names c es (ground arith)

show_batch-own :
    (c : String) (batch : LogsBatch) (s : ContainerLogs)
    → s.listening ≡ some c
    → names c batch ≡ true
    → show_batch batch s ≡ record s { buffer = append_batch max_lines s.buffer batch }
unfolding show_batch
show_batch-own c batch s l h =
    let own : is_for s.listening batch.container ≡ true = ground arith in
    ap (λ b. if b then record s { buffer = append_batch max_lines s.buffer batch } else s) own

on_batches-append_all :
    (c : String) (batches : List LogsBatch) (s : ContainerLogs)
    → s.listening ≡ some c
    → all (names c) batches ≡ true
    → (on_batches batches s).0.buffer ≡ append_all max_lines s.buffer batches
unfolding on_batches on_batch append_all
on_batches-append_all c [] s l h = refl
on_batches-append_all c (batch ∷ batches) s l h =
    let t = record s { buffer = append_batch max_lines s.buffer batch } in
    ap (λ u. (on_batches batches u).0.buffer) (show_batch-own c batch s l (ground arith))
    ∙ on_batches-append_all c batches t l (ground arith)

-- Every batch that is shown is acknowledged.
on_batches-acks :
    (c : String) (batches : List LogsBatch) (s : ContainerLogs)
    → s.listening ≡ some c
    → (on_batches batches s).1 ≡ length batches
unfolding on_batches on_batch
on_batches-acks c [] s l = refl
on_batches-acks c (batch ∷ batches) s l =
    let kept : (show_batch batch s).listening ≡ some c = unfold show_batch in ground arith in
    let one : acks s.listening ≡ 1 = ap acks l in
    omega (arith, one, on_batches-acks c batches (show_batch batch s) kept)

sent-append : (xs ys : List LogsBatch) → sent (xs ++ ys) ≡ sent xs + sent ys
sent-append [] ys = omega arith
sent-append (batch ∷ xs) ys = omega (arith, sent-append xs ys)

sent-emitted :
    (effects : List Effect)
    → sent (emitted effects) ≡ length (Measures.sent effects) + reported effects
sent-emitted [] = omega arith
sent-emitted (emit batch timeout ∷ es) = omega (
  arith,
  sent-emitted es,
  sent-append (emitted es) (batch ∷ []),
  length-append (Measures.sent es) batch.lines,
)
sent-emitted (pause_source ∷ es) = sent-emitted es
sent-emitted (resume_source ∷ es) = sent-emitted es
sent-emitted (destroy_source ∷ es) = sent-emitted es
sent-emitted (on_close ∷ es) = sent-emitted es

-- A viewer that listens to the container of a session and has received every batch that the
-- session emitted has acknowledged each of them and holds at most a thousand lines, and every line
-- that the session took in is shown, counted by the viewer as dropped, or still with the session,
-- in its queue or in its count of losses; unless the session was cut off and is closed.
pub on_batches-run :
    (o : LogSessionOptions) (es : List Event) (s : ContainerLogs)
    → 1 ≤ o.max_queue
    → (all is_gentle es ≡ true) ⊎ ((run es (new o)).closed ≡ false)
    → s.listening ≡ some o.container
    → s.buffer ≡ empty_logs_buffer
    → ((on_batches (emitted (run es (new o)).effects) s).1
        ≡ length (emitted (run es (new o)).effects))
      × (length (on_batches (emitted (run es (new o)).effects) s).0.buffer.lines ≤ max_lines)
      × (length (accepted es (new o))
          ≡ length (on_batches (emitted (run es (new o)).effects) s).0.buffer.lines
            + (on_batches (emitted (run es (new o)).effects) s).0.buffer.dropped
            + (run es (new o)).dropped
            + length (run es (new o)).queue)
unfolding new
on_batches-run o es s room gentle l fresh =
    let t = run es (new o) in
    let mine : all (names o.container) (emitted t.effects) ≡ true =
      emitted-names o.container t.effects (
        subst (λ q. all (is_own q.container) t.effects ≡ true) (options-run es (new o))
          (own-run es (new o))) in
    let shown =
      on_batches-append_all o.container (emitted t.effects) s l mine
      ∙ ap (λ b. append_all max_lines b (emitted t.effects)) fresh in
    let (few, counted) =
      append_all-length max_lines empty_logs_buffer (emitted t.effects) (omega arith) in
    let lines = ap (λ b. length b.lines) shown in
    let dropped = ap (λ b. b.dropped) shown in
    (
      on_batches-acks o.container (emitted t.effects) s l,
      omega (arith, lines, few),
      omega (
        arith,
        lines,
        dropped,
        counted,
        sent-emitted t.effects,
        account-run-new o es room gentle,
      ),
    )
