-- ===== src/Logs/Pipeline.antt =====
-- `openDockerStream` of apps/api/src/logs/logs.service.ts: the bytes of Docker's stream go through
-- the parser and the splitter to the session, and the stream's end and error end it. The inputs
-- are what the event loop runs: a chunk, the end, an error, and what happens to the session.
-- `clock n` is the time at which the line is parsed that comes after n others of the stream.
pub mod Whole
mod Tests
use core_dashboard.Prelude.{ℕ, ◌+◌, Bool, List, [], ◌∷◌, ◌++◌, Text, length}
use core_dashboard.Shared.Events.{LogLine}
use core_dashboard.Logs.Frames
use core_dashboard.Logs.Frames.{Frame}
use core_dashboard.Logs.Lines
use core_dashboard.Logs.Lines.{LogLineSplitter}
use core_dashboard.Logs.Session
use core_dashboard.Logs.Session.{
  LogSession, LogSessionOptions, Event, pushed, attached, ended, cancelled, settled, expired,
}

-- `parsed` counts the lines so far, for their times.
pub record DockerStream : Type 0 where
  pub buffer : List ℕ
  pub splitter : LogLineSplitter
  pub session : LogSession
  pub parsed : ℕ

abbrev pub opened : LogSessionOptions → DockerStream
opened options = record {
  buffer = [];
  splitter = Lines.new;
  session = Session.new options;
  parsed = 0;
}

pub data Input : Type 0 where
  data_came : List ℕ → Input
  stream_error stream_end source_attached closed acknowledged unanswered : Input

module _ (to_text : List ℕ → Text) (is_date : Text → Bool) (clock : ℕ → Text) where
  -- The lines of the payloads that the parser hands on, one after the other; n came before.
  unfoldable pub split_lines : ℕ → List Frame → LogLineSplitter → List LogLine × LogLineSplitter
  split_lines n [] s = ([], s)
  split_lines n ((source, payload) ∷ frames) s =
      let (lines, t) = Lines.push to_text is_date clock n source payload s in
      let (more, u) = split_lines (n + length lines) frames t in (lines ++ more, u)

  unfoldable pub push_lines : List LogLine → LogSession → LogSession
  push_lines [] s = s
  push_lines (line ∷ lines) s = push_lines lines (Session.push line s)

  -- `stream.on("data", ...)`.
  unfoldable pub on_data : List ℕ → DockerStream → DockerStream
  on_data chunk d =
      let (frames, rest) = Frames.push d.buffer chunk in
      let (lines, splitter) = split_lines d.parsed frames d.splitter in
      record {
        buffer = rest;
        splitter = splitter;
        session = push_lines lines d.session;
        parsed = d.parsed + length lines;
      }

  abbrev pub with_session : Event → DockerStream → DockerStream
  with_session e d = record d { session = Session.step e d.session }

  unfoldable pub step : Input → DockerStream → DockerStream
  step (data_came chunk) d = on_data chunk d
  step stream_error d = with_session cancelled d
  step stream_end d = with_session ended d
  step source_attached d = with_session attached d
  step closed d = with_session cancelled d
  step acknowledged d = with_session settled d
  step unanswered d = with_session expired d

  unfoldable pub run : List Input → DockerStream → DockerStream
  run [] d = d
  run (input ∷ inputs) d = run inputs (step input d)
