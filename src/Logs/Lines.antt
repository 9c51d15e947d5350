-- ===== src/Logs/Lines.antt =====
-- `LogLineSplitter` and `parseDockerLine` of apps/api/src/logs/docker-frames.ts: payloads to whole
-- lines. What Node decodes (`payload.toString("utf8")`), whether `Date.parse` accepts a text, and
-- the text of the time are parameters: `clock n` is the time at which the line is parsed that comes
-- after n others of its stream.
pub mod Cuts
pub mod Joins
mod Tests
use core_dashboard.Prelude.{
  ℕ, suc, ◌+◌, Bool, true, false, Option, none, some, List, [], ◌∷◌, ◌++◌, map, if◌then◌else◌, leb,
  ltb, length, take, drop, filter, ◌==◌, number_equality, Text, split,
}
use mathlib.Core.Option
use core_dashboard.Shared.Events.{FrameSource, stdout, stderr, LogLine}

-- `lines.pop() ?? ""`: all parts but the last, and the last.
unfoldable pub pop : List Text → List Text × Text
pop [] = ([], [])
pop (part ∷ []) = ([], part)
pop (part ∷ next ∷ parts) = let (before, last) = pop (next ∷ parts) in (part ∷ before, last)

-- `raw.endsWith("\r") ? raw.slice(0, -1) : raw`.
unfoldable pub strip_cr : Text → Text
strip_cr [] = []
strip_cr (c ∷ []) = if c == b'\r' then [] else c ∷ []
strip_cr (c ∷ d ∷ s) = c ∷ strip_cr (d ∷ s)

-- `clean.length > 0`.
abbrev pub is_filled : Text → Bool
is_filled s = leb 1 (length s)

unfoldable pub index_of : ℕ → Text → Option ℕ
index_of c [] = none
index_of c (d ∷ s) = if d == c then some 0 else Option.map suc (index_of c s)

-- `this.partial`: the unfinished line of each source.
pub record LogLineSplitter : Type 0 where
  pub out : Text
  pub err : Text

abbrev pub new : LogLineSplitter
new = record { out = []; err = [] }

abbrev pub partial : FrameSource → LogLineSplitter → Text
partial stdout s = s.out
partial stderr s = s.err

abbrev pub with_partial : FrameSource → Text → LogLineSplitter → LogLineSplitter
with_partial stdout rest s = record s { out = rest }
with_partial stderr rest s = record s { err = rest }

module _ (is_date : Text → Bool) (now : Text) where
  unfoldable pub parse_docker_line : FrameSource → Text → LogLine
  parse_docker_line source raw =
      let plain : LogLine = record { ts = now; source = source; text = raw } in
      elim (index_of b' ' raw) [
        | none ↦ plain
        | some idx ↦
            if ltb 0 idx
            then (if is_date (take idx raw)
                then record { ts = take idx raw; source = source; text = drop (idx + 1) raw }
                else plain)
            else plain
      ]

-- The lines of a text without their ends, the empty ones left out.
unfoldable pub clean_lines : List Text → List Text
clean_lines lines = filter is_filled (map strip_cr lines)

module _ (is_date : Text → Bool) (clock : ℕ → Text) where
  -- The lines parsed one after the other, each at its own time; n others come before.
  unfoldable pub parse_lines : ℕ → FrameSource → List Text → List LogLine
  parse_lines n source [] = []
  parse_lines n source (raw ∷ raws) =
      parse_docker_line is_date (clock n) source raw ∷ parse_lines (suc n) source raws

module _ (to_text : List ℕ → Text) (is_date : Text → Bool) (clock : ℕ → Text) where
  -- The lines handed to `onLine` after n others, and the splitter after it.
  unfoldable pub push : ℕ → FrameSource → List ℕ → LogLineSplitter → List LogLine × LogLineSplitter
  push n source payload s =
      let (lines, rest) = pop (split b'\n' (partial source s ++ to_text payload)) in
      (parse_lines is_date clock n source (clean_lines lines), with_partial source rest s)
