-- ===== src/Logs/Lines/Joins.antt =====
-- The lines that a container writes, and those that the splitter hands on.
use core_dashboard.Prelude.{
  ℕ, suc, ◌+◌, ◌≡◌, refl, sym, ap, ◌∙◌, Bool, true, false, some, List, [], ◌∷◌, ◌++◌, append_assoc,
  arith, length, drop, take_of_length, number_equality, Text, Lacks, All,
}
use native.Mathlib.Numerals.{add-one}
use core_dashboard.Shared.Events.{FrameSource}
use core_dashboard.Logs.Lines.{
  strip_cr, is_filled, LogLineSplitter, partial, with_partial, index_of, parse_docker_line,
  clean_lines, parse_lines, push,
}
use core_dashboard.Logs.Lines.Cuts.{cut, push-cut, outcome}

-- A line as it is written: its text, and whether it ends with "\r\n" or with "\n".
abbrev pub Written : Type 0
Written = Text × Bool

abbrev pub ending : Bool → Text
ending true = b'\r' ∷ b'\n' ∷ []
ending false = b'\n' ∷ []

abbrev pub written : List Written → Text
written [] = []
written ((line, crlf) ∷ lines) = line ++ (ending crlf ++ written lines)

-- A line that is not empty, has no line feed inside, and ends with no carriage return of its own.
abbrev pub IsLine : Written → Type 0
IsLine (line, crlf) = Lacks b'\n' line × (is_filled line ≡ true) × (strip_cr line ≡ line)

abbrev pub texts : List Written → List Text
texts [] = []
texts ((line, crlf) ∷ lines) = line ∷ texts lines

cut_line :
    (line rest : Text)
    → Lacks b'\n' line
    → cut (line ++ b'\n' ∷ rest) ≡ (line ∷ (cut rest).0, (cut rest).1)
cut_line [] rest h = ground arith
cut_line (c ∷ line) rest (d, h) = ground (arith, cut_line line rest h)

strip_cr-cr : (line : Text) → strip_cr (line ++ b'\r' ∷ []) ≡ line
unfolding strip_cr
strip_cr-cr [] = refl
strip_cr-cr (c ∷ []) = refl
strip_cr-cr (c ∷ d ∷ line) = ap (◌∷◌ c) (strip_cr-cr (d ∷ line))

Lacks-cr : (line : Text) → Lacks b'\n' line → Lacks b'\n' (line ++ b'\r' ∷ [])
Lacks-cr [] h = ground arith
Lacks-cr (c ∷ line) (d, h) = (d, Lacks-cr line h)

abbrev raw_lines : List Written → List Text
raw_lines [] = []
raw_lines ((line, true) ∷ lines) = (line ++ b'\r' ∷ []) ∷ raw_lines lines
raw_lines ((line, false) ∷ lines) = line ∷ raw_lines lines

cut-written :
    (lines : List Written) → All IsLine lines → cut (written lines) ≡ (raw_lines lines, [])
cut-written [] a = refl
cut-written ((line, true) ∷ lines) ((lacks, _, _), a) =
    ap cut (sym (append_assoc line (b'\r' ∷ []) (b'\n' ∷ written lines)))
    ∙ cut_line (line ++ b'\r' ∷ []) (written lines) (Lacks-cr line lacks)
    ∙ ap (λ (r : List Text × Text). ((line ++ b'\r' ∷ []) ∷ r.0, r.1)) (cut-written lines a)
cut-written ((line, false) ∷ lines) ((lacks, _, _), a) =
    cut_line line (written lines) lacks
    ∙ ap (λ (r : List Text × Text). (line ∷ r.0, r.1)) (cut-written lines a)

clean_lines-raw_lines :
    (lines : List Written) → All IsLine lines → clean_lines (raw_lines lines) ≡ texts lines
unfolding clean_lines
clean_lines-raw_lines [] a = refl
clean_lines-raw_lines ((line, true) ∷ lines) ((_, filled, _), a) =
    ground (arith, clean_lines-raw_lines lines a, strip_cr-cr line)
clean_lines-raw_lines ((line, false) ∷ lines) ((_, filled, same), a) =
    ground (arith, clean_lines-raw_lines lines a)

index_of-append : (c : ℕ) (s t : Text) → Lacks c s → index_of c (s ++ c ∷ t) ≡ some (length s)
unfolding index_of
index_of-append c [] t h = ground arith
index_of-append c (d ∷ s) t (e, h) = ground (arith, index_of-append c s t h)

drop_after : (s : Text) (c : ℕ) (t : Text) → drop (length s + 1) (s ++ c ∷ t) ≡ t
drop_after s c t = rw add-one (after s)
  where
    after : (s : Text) → drop (suc (length s)) (s ++ c ∷ t) ≡ t
    after [] = refl
    after (d ∷ s) = after s

module _ (to_text : List ℕ → Text) (is_date : Text → Bool) (clock : ℕ → Text) where
  -- Lines that are not empty, hold no line feed and do not end with a carriage return, each written
  -- with "\n" or "\r\n" after it, and given in one payload to a source with nothing pending, come
  -- out one by one, parsed, in order and without their ends, and nothing is pending afterwards.
  pub push-written :
      (n : ℕ) (source : FrameSource) (payload : List ℕ) (s : LogLineSplitter) (lines : List Written)
      → partial source s ≡ []
      → to_text payload ≡ written lines
      → All IsLine lines
      → push to_text is_date clock n source payload s
        ≡ (parse_lines is_date clock n source (texts lines), with_partial source [] s)
  push-written n source payload s lines p e a =
      push-cut to_text is_date clock n source payload s
      ∙ ap (outcome to_text is_date clock n source s)
          (ap cut (ap (λ (t : Text). t ++ to_text payload) p ∙ e) ∙ cut-written lines a)
      ∙ ap (λ (l : List Text). (parse_lines is_date clock n source l, with_partial source [] s))
          (clean_lines-raw_lines lines a)

module _ (is_date : Text → Bool) (now : Text) where
  -- A line with Docker's time stamp in front is taken apart into the stamp and the text, where the
  -- stamp is a date, is not empty and holds no space; the text may hold anything.
  pub parse_docker_line_stamped :
      (source : FrameSource) (ts text : Text)
      → Lacks b' ' ts
      → is_filled ts ≡ true
      → is_date ts ≡ true
      → parse_docker_line is_date now source (ts ++ b' ' ∷ text)
        ≡ record { ts = ts; source = source; text = text }
  unfolding parse_docker_line
  parse_docker_line_stamped source ts text l f d = ground (
    arith,
    index_of-append b' ' ts text l,
    take_of_length ts (b' ' ∷ text),
    drop_after ts b' ' text,
  )
