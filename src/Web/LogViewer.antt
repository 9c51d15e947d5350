-- ===== src/Web/LogViewer.antt =====
-- apps/web/src/components/log-viewer.tsx: the lines that the hook of ContainerLogs keeps, and
-- whether the view follows them.
use core_dashboard.Prelude.{
  ℕ, ◌-◌, String, Bool, not, Option, none, some, List, [], ◌∷◌, ◌++◌, length, take, drop, ltb, Text,
  ◌==◌, string_equality, if◌then◌else◌,
}
use core_dashboard.Shared.Events.{LogLine, FrameSource, stdout, stderr}
use core_dashboard.Web.View.{
  count, literal, letters, message, Tone, plain, muted, warning, danger, text, View, each, when,
}
use core_dashboard.Web.ContainerLogs.{ContainerLogs}

abbrev pub pin_threshold_px : ℕ
pin_threshold_px = 40

-- `setPinned(...)`; the three measures of the element, of which the first is not less than the sum
-- of the others.
unfoldable pub on_scroll : ℕ → ℕ → ℕ → Bool
on_scroll scroll_height scroll_top client_height =
    ltb (scroll_height - scroll_top - client_height) pin_threshold_px

abbrev pub source_tone : FrameSource → Tone
source_tone stderr = warning
source_tone stdout = plain

-- `line.ts.slice(11, 19)`.
abbrev pub time_of : Text → Text
time_of ts = take 8 (drop 11 ts)

module _ {A : Type 0} where
  abbrev pub line_view : LogLine → View A
  line_view line =
      text muted (letters (time_of line.ts))
      ∷ text (source_tone line.source) (letters line.text)
      ∷ []

  abbrev pub list_view : List LogLine → View A
  list_view [] = text muted (message "logViewer.waiting" []) ∷ []
  list_view (line ∷ lines) = each line_view (line ∷ lines)

  -- An empty text is no error.
  abbrev pub lines_view : Option String → List LogLine → View A
  lines_view none lines = list_view lines
  lines_view (some error) lines =
      if error == "" then list_view lines else text danger (literal error) ∷ []

  abbrev pub footer_view : Bool → ContainerLogs → View A
  footer_view pinned s =
      text muted (message "logViewer.lineCount" (("count", count (length s.buffer.lines)) ∷ []))
        ∷ when (not pinned) (text warning (message "logViewer.scrollPaused" []) ∷ [])
      ++ when (ltb 0 s.buffer.dropped)
          (text warning (message "logViewer.dropped" (("count", count s.buffer.dropped) ∷ [])) ∷ [])

  unfoldable pub view : Bool → ContainerLogs → View A
  view pinned s = lines_view s.error s.buffer.lines ++ footer_view pinned s
