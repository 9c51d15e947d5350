-- ===== src/Logs/Pipeline/Tests.antt =====
-- A stream in two chunks that are cut inside a line, with an acknowledgement in between.
use core_dashboard.Prelude.{
  ℕ, ◌+◌, ◌≡◌, refl, Bool, false, List, [], ◌∷◌, flatten, Text, codes, split,
}
use core_dashboard.Shared.Events.{stdout}
use core_dashboard.Logs.Frames
use core_dashboard.Logs.Lines
use core_dashboard.Logs.Session
use core_dashboard.Logs.Session.{LogSessionOptions, default_session_options}
use core_dashboard.Logs.Pipeline.{
  opened, Input, data_came, source_attached, acknowledged, stream_end, split_lines, run,
}
use core_dashboard.Logs.Pipeline.Whole.{chunks_of, pushed_of, events_of, lines_of, run-opened}

abbrev to_text : List ℕ → Text
to_text bytes = bytes

abbrev is_date : Text → Bool
is_date s = false

abbrev clock : ℕ → Text
clock n = (b'0' + n) ∷ []

abbrev options : LogSessionOptions
options = default_session_options "web"

abbrev inputs : List Input
inputs =
    source_attached
    ∷ data_came (1 ∷ 0 ∷ 0 ∷ 0 ∷ 0 ∷ 0 ∷ 0 ∷ 4 ∷ 104 ∷ [])
    ∷ acknowledged
    ∷ data_came (105 ∷ 10 ∷ 33 ∷ [])
    ∷ stream_end
    ∷ []

lines_of-inputs :
    lines_of to_text is_date clock (flatten (chunks_of inputs))
    ≡ record { ts = codes "0"; source = stdout; text = codes "hi" } ∷ []
unfolding split_lines flatten Frames.push Frames.parse_frames Frames.split_frame Lines.push
    Lines.pop Lines.clean_lines Lines.strip_cr Lines.parse_lines Lines.parse_docker_line
    Lines.index_of split
lines_of-inputs = refl

run-opened_example :
    ((run to_text is_date clock inputs (opened options)).session
      ≡ Session.run (events_of to_text is_date clock inputs (opened options)) (Session.new options))
    × (pushed_of (events_of to_text is_date clock inputs (opened options))
        ≡ lines_of to_text is_date clock (flatten (chunks_of inputs)))
run-opened_example = run-opened to_text is_date clock options inputs
