-- ===== src/Containers/Stream/Chunks.antt =====
-- The lines of the event stream, and the chunks in which it comes.
use core_dashboard.Prelude.{
  ◌≡◌, refl, sym, ap, ◌∙◌, List, [], ◌∷◌, ◌++◌, append_assoc, filter, arith, Text,
}
use core_dashboard.Logs.Lines.Cuts.{cut, pop-split, then_cut, cut-append}
use core_dashboard.Containers.Stream.{on_data, is_line}

filter-append :
    (xs ys : List Text) → filter is_line (xs ++ ys) ≡ filter is_line xs ++ filter is_line ys
filter-append [] ys = refl
filter-append (x ∷ xs) ys = ground (arith, filter-append xs ys)

-- The lines of a cut, and its rest.
abbrev kept : List Text × Text → List Text × Text
kept (lines, rest) = (filter is_line lines, rest)

abbrev pub then_data : Text → List Text × Text → List Text × Text
then_data chunk (lines, rest) = let (more, final) = on_data chunk rest in (lines ++ more, final)

on_data-cut : (chunk buffer : Text) → on_data chunk buffer ≡ kept (cut (buffer ++ chunk))
unfolding on_data
on_data-cut chunk buffer = ap kept (pop-split (buffer ++ chunk))

kept-then_cut :
    (r : List Text × Text) (chunk : Text) → kept (then_cut r chunk) ≡ then_data chunk (kept r)
kept-then_cut (lines, rest) chunk =
    let (more, final) = cut (rest ++ chunk) in rw (on_data-cut chunk rest, filter-append lines more)

-- Two chunks of the stream give the lines and the buffer that their text gives in one chunk.
pub on_data-append :
    (first second buffer : Text)
    → on_data (first ++ second) buffer ≡ then_data second (on_data first buffer)
on_data-append first second buffer =
    on_data-cut (first ++ second) buffer
    ∙ ap kept
        (ap cut (sym (append_assoc buffer first second)) ∙ cut-append (buffer ++ first) second)
    ∙ kept-then_cut (cut (buffer ++ first)) second
    ∙ ap (then_data second) (sym (on_data-cut first buffer))
