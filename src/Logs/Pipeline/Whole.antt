-- ===== src/Logs/Pipeline/Whole.antt =====
-- The session behind a stream, and the lines of the whole stream.
use core_dashboard.Prelude.{
  ℕ, ◌+◌, length, length-append, arith, ◌≡◌, ◌∙◌, refl, sym, ap, Bool, List, [], ◌∷◌, ◌++◌, map,
  append_assoc, flatten, Text,
}
use core_dashboard.Shared.Events.{LogLine}
use core_dashboard.Logs.Frames
use core_dashboard.Logs.Frames.{Frame, feed}
use core_dashboard.Logs.Frames.Chunks.{feed-flatten}
use core_dashboard.Logs.Lines
use core_dashboard.Logs.Lines.{LogLineSplitter}
use core_dashboard.Logs.Session
use core_dashboard.Logs.Session.{
  LogSession, LogSessionOptions, Event, pushed, attached, ended, cancelled, settled, expired,
}
use core_dashboard.Logs.Pipeline.{
  DockerStream, opened, Input, data_came, stream_error, stream_end, source_attached, closed,
  acknowledged, unanswered, split_lines, push_lines, on_data, with_session, step, run,
}

-- The chunks of the inputs, and the lines of some events.
abbrev pub chunks_of : List Input → List (List ℕ)
chunks_of [] = []
chunks_of (data_came chunk ∷ inputs) = chunk ∷ chunks_of inputs
chunks_of (_ ∷ inputs) = chunks_of inputs

abbrev pub pushed_of : List Event → List LogLine
pushed_of [] = []
pushed_of (pushed line ∷ events) = line ∷ pushed_of events
pushed_of (_ ∷ events) = pushed_of events

pushed_of-append :
    (lines : List LogLine) (events : List Event)
    → pushed_of (map pushed lines ++ events) ≡ lines ++ pushed_of events
pushed_of-append [] events = refl
pushed_of-append (line ∷ lines) events = ap (◌∷◌ line) (pushed_of-append lines events)

run-append :
    (before after : List Event) (s : LogSession)
    → Session.run (before ++ after) s ≡ Session.run after (Session.run before s)
unfolding Session.run
run-append [] after s = refl
run-append (e ∷ before) after s = run-append before after (Session.step e s)

module _ (to_text : List ℕ → Text) (is_date : Text → Bool) (clock : ℕ → Text) where
  push_lines-run :
      (lines : List LogLine) (s : LogSession)
      → push_lines to_text is_date clock lines s ≡ Session.run (map pushed lines) s
  unfolding push_lines Session.run Session.step
  push_lines-run [] s = refl
  push_lines-run (line ∷ lines) s = push_lines-run lines (Session.push line s)

  abbrev pub lines_in : List ℕ → DockerStream → List LogLine
  lines_in chunk d =
      (split_lines to_text is_date clock d.parsed (Frames.push d.buffer chunk).0 d.splitter).0

  -- The events of the session that an input comes to.
  abbrev pub events_in : Input → DockerStream → List Event
  events_in (data_came chunk) d = map pushed (lines_in chunk d)
  events_in stream_error d = cancelled ∷ []
  events_in stream_end d = ended ∷ []
  events_in source_attached d = attached ∷ []
  events_in closed d = cancelled ∷ []
  events_in acknowledged d = settled ∷ []
  events_in unanswered d = expired ∷ []

  unfoldable pub events_of : List Input → DockerStream → List Event
  events_of [] d = []
  events_of (input ∷ inputs) d =
      events_in input d ++ events_of inputs (step to_text is_date clock input d)

  step-session :
      (input : Input) (d : DockerStream)
      → (step to_text is_date clock input d).session ≡ Session.run (events_in input d) d.session
  unfolding step on_data Session.run
  step-session (data_came chunk) d = push_lines-run (lines_in chunk d) d.session
  step-session stream_error d = refl
  step-session stream_end d = refl
  step-session source_attached d = refl
  step-session closed d = refl
  step-session acknowledged d = refl
  step-session unanswered d = refl

  run-session :
      (inputs : List Input) (d : DockerStream)
      → (run to_text is_date clock inputs d).session ≡ Session.run (events_of inputs d) d.session
  unfolding run events_of
  run-session [] d = unfold Session.run in refl
  run-session (input ∷ inputs) d =
      let t = step to_text is_date clock input d in
      run-session inputs t
      ∙ ap (Session.run (events_of inputs t)) (step-session input d)
      ∙ sym (run-append (events_in input d) (events_of inputs t) d.session)

  split_lines-append :
      (n : ℕ) (xs ys : List Frame) (s : LogLineSplitter)
      → (split_lines to_text is_date clock n (xs ++ ys) s).0 ≡ (
          let (lines, t) = split_lines to_text is_date clock n xs s in
          lines ++ (split_lines to_text is_date clock (n + length lines) ys t).0)
  unfolding split_lines
  split_lines-append n [] ys s =
      let e : n ≡ n + 0 = omega arith in ap (λ k. (split_lines to_text is_date clock k ys s).0) e
  split_lines-append n ((source, payload) ∷ xs) ys s =
      let (lines, t) = Lines.push to_text is_date clock n source payload s in
      let (more, u) = split_lines to_text is_date clock (n + length lines) xs t in
      let e : n + length lines + length more ≡ n + length (lines ++ more) =
        omega (arith, length-append lines more) in
      ap (λ (all : List LogLine). lines ++ all) (split_lines-append (n + length lines) xs ys t)
      ∙ sym (
          append_assoc lines more
            (split_lines to_text is_date clock (n + length lines + length more) ys u).0)
      ∙ ap (λ k. (lines ++ more) ++ (split_lines to_text is_date clock k ys u).0) e

  pushed_of-events_of :
      (inputs : List Input) (d : DockerStream)
      → pushed_of (events_of inputs d)
        ≡ (split_lines to_text is_date clock d.parsed
            (feed d.buffer (chunks_of inputs)).0
            d.splitter).0
  unfolding events_of feed step on_data
  pushed_of-events_of [] d = unfold split_lines in refl
  pushed_of-events_of (data_came chunk ∷ inputs) d =
      let t = step to_text is_date clock (data_came chunk) d in
      pushed_of-append (lines_in chunk d) (events_of inputs t)
      ∙ ap (λ (more : List LogLine). lines_in chunk d ++ more) (pushed_of-events_of inputs t)
      ∙ sym (
          split_lines-append d.parsed (Frames.push d.buffer chunk).0
            (feed t.buffer (chunks_of inputs)).0 d.splitter)
  pushed_of-events_of (stream_error ∷ inputs) d =
      pushed_of-events_of inputs (with_session to_text is_date clock cancelled d)
  pushed_of-events_of (stream_end ∷ inputs) d =
      pushed_of-events_of inputs (with_session to_text is_date clock ended d)
  pushed_of-events_of (source_attached ∷ inputs) d =
      pushed_of-events_of inputs (with_session to_text is_date clock attached d)
  pushed_of-events_of (closed ∷ inputs) d =
      pushed_of-events_of inputs (with_session to_text is_date clock cancelled d)
  pushed_of-events_of (acknowledged ∷ inputs) d =
      pushed_of-events_of inputs (with_session to_text is_date clock settled d)
  pushed_of-events_of (unanswered ∷ inputs) d =
      pushed_of-events_of inputs (with_session to_text is_date clock expired d)

  -- The lines of a stream that comes in one piece.
  abbrev pub lines_of : List ℕ → List LogLine
  lines_of bytes = (split_lines to_text is_date clock 0 (Frames.push [] bytes).0 Lines.new).0

  -- Whatever happens to a stream, its session is as if it were pushed lines with the events in
  -- between, and these lines, in order, are those of the bytes that came, put together: however
  -- they were cut into chunks, and whenever batches were acknowledged; a line without a stamp has the
  -- time at which it, as the nth of the stream, was parsed.
  pub run-opened :
      (options : LogSessionOptions) (inputs : List Input)
      → ((run to_text is_date clock inputs (opened options)).session
          ≡ Session.run (events_of inputs (opened options)) (Session.new options))
        × (pushed_of (events_of inputs (opened options)) ≡ lines_of (flatten (chunks_of inputs)))
  run-opened options inputs = (
    run-session inputs (opened options),
    pushed_of-events_of inputs (opened options)
        ∙ ap (λ (r : List Frame × List ℕ). (split_lines to_text is_date clock 0 r.0 Lines.new).0)
            (feed-flatten (chunks_of inputs)),
  )
