-- ===== src/Logs/Lines/Cuts.antt =====
-- The lines of a source, and the payloads into which its bytes are cut.
use core_dashboard.Prelude.{
  ℕ, suc, ◌+◌, length, ◌≡◌, refl, sym, ap, ◌∙◌, Bool, List, [], ◌∷◌, ◌++◌, append_assoc, map,
  map-append, arith, if◌then◌else◌, Bool-cases, inl, inr, filter, ◌==◌, number_equality, Text,
  split, split_step,
}
use core_dashboard.Shared.Events.{FrameSource, stdout, stderr, LogLine}
use core_dashboard.Logs.Lines.{
  pop, strip_cr, is_filled, LogLineSplitter, partial, with_partial, parse_docker_line, clean_lines,
  parse_lines, push,
}

-- One more character in front of finished lines and a rest.
abbrev pub lengthen : ℕ → List Text × Text → List Text × Text
lengthen c ([], rest) = ([], c ∷ rest)
lengthen c (line ∷ lines, rest) = ((c ∷ line) ∷ lines, rest)

abbrev pub cut_step : ℕ → List Text × Text → List Text × Text
cut_step c (lines, rest) = if c == b'\n' then ([] ∷ lines, rest) else lengthen c (lines, rest)

-- `split("\n")` and `pop` in one recursion.
abbrev pub cut : Text → List Text × Text
cut [] = ([], [])
cut (c ∷ s) = cut_step c (cut s)

pop-split_step :
    (c : ℕ) (part : Text) (parts : List Text)
    → pop (split_step b'\n' c (part ∷ parts)) ≡ cut_step c (pop (part ∷ parts))
unfolding pop
pop-split_step c part [] = ground arith
pop-split_step c part (next ∷ parts) = ground arith

split-cons : (s : Text) → (part : Text) × (parts : List Text) × (split b'\n' s ≡ part ∷ parts)
unfolding split
split-cons [] = ([], [], refl)
split-cons (c ∷ s) =
    let (part, parts, e) = split-cons s in
    elim (Bool-cases (c == b'\n')) [
      | inl sep ↦ ([], part ∷ parts, ground arith)
      | inr other ↦ (c ∷ part, parts, ground arith)
    ]

pub pop-split : (s : Text) → pop (split b'\n' s) ≡ cut s
unfolding split
pop-split [] = unfold pop in refl
pop-split (c ∷ s) =
    let (part, parts, e) = split-cons s in
    rw e (pop-split_step c part parts ∙ ap (cut_step c) (ap pop (sym e) ∙ pop-split s))

abbrev pub then_cut : List Text × Text → Text → List Text × Text
then_cut (lines, rest) t = let (more, final) = cut (rest ++ t) in (lines ++ more, final)

cut_step-then_cut :
    (c : ℕ) (r : List Text × Text) (t : Text)
    → cut_step c (then_cut r t) ≡ then_cut (cut_step c r) t
cut_step-then_cut c ([], rest) t = ground arith
cut_step-then_cut c (line ∷ lines, rest) t = ground arith

pub cut-append : (s t : Text) → cut (s ++ t) ≡ then_cut (cut s) t
cut-append [] t = refl
cut-append (c ∷ s) t = ap (cut_step c) (cut-append s t) ∙ cut_step-then_cut c (cut s) t

filter-append :
    (xs ys : List Text) → filter is_filled (xs ++ ys) ≡ filter is_filled xs ++ filter is_filled ys
filter-append [] ys = refl
filter-append (x ∷ xs) ys = ground (arith, filter-append xs ys)

pub clean_lines-append :
    (xs ys : List Text) → clean_lines (xs ++ ys) ≡ clean_lines xs ++ clean_lines ys
unfolding clean_lines
clean_lines-append xs ys = rw map-append (filter-append (map strip_cr xs) (map strip_cr ys))

partial-with_partial :
    (source : FrameSource) (rest : Text) (s : LogLineSplitter)
    → partial source (with_partial source rest s) ≡ rest
partial-with_partial stdout rest s = refl
partial-with_partial stderr rest s = refl

with_partial_twice :
    (source : FrameSource) (rest rest' : Text) (s : LogLineSplitter)
    → with_partial source rest (with_partial source rest' s) ≡ with_partial source rest s
with_partial_twice stdout rest rest' s = refl
with_partial_twice stderr rest rest' s = refl

module _ (is_date : Text → Bool) (clock : ℕ → Text) where
  length-parse_lines :
      (n : ℕ) (source : FrameSource) (raws : List Text)
      → length (parse_lines is_date clock n source raws) ≡ length raws
  unfolding parse_lines
  length-parse_lines n source [] = refl
  length-parse_lines n source (raw ∷ raws) = ap suc (length-parse_lines (suc n) source raws)

  parse_lines-append :
      (n : ℕ) (source : FrameSource) (xs ys : List Text)
      → parse_lines is_date clock n source (xs ++ ys)
        ≡ parse_lines is_date clock n source xs
          ++ parse_lines is_date clock (n + length xs) source ys
  unfolding parse_lines
  parse_lines-append n source [] ys =
      let e : n ≡ n + 0 = omega arith in ap (λ k. parse_lines is_date clock k source ys) e
  parse_lines-append n source (x ∷ xs) ys =
      let e : suc n + length xs ≡ n + suc (length xs) = omega arith in
      ap (◌∷◌ (parse_docker_line is_date (clock n) source x)) (
        parse_lines-append (suc n) source xs ys
        ∙ ap
            (λ k.
              parse_lines is_date clock (suc n) source xs ++ parse_lines is_date clock k source ys)
            e)

module _ (to_text : List ℕ → Text) (is_date : Text → Bool) (clock : ℕ → Text) where
  -- What a push makes of the finished lines and the rest.
  abbrev pub outcome :
      ℕ → FrameSource → LogLineSplitter → List Text × Text → List LogLine × LogLineSplitter
  outcome n source s (lines, rest) =
      (parse_lines is_date clock n source (clean_lines lines), with_partial source rest s)

  pub push-cut :
      (n : ℕ) (source : FrameSource) (payload : List ℕ) (s : LogLineSplitter)
      → push to_text is_date clock n source payload s
        ≡ outcome n source s (cut (partial source s ++ to_text payload))
  unfolding push
  push-cut n source payload s =
      ap (outcome n source s) (pop-split (partial source s ++ to_text payload))

  -- The next push, when n lines came before the ones of the last.
  abbrev pub then_push :
      ℕ → FrameSource → List ℕ → List LogLine × LogLineSplitter → List LogLine × LogLineSplitter
  then_push n source payload (lines, s) =
      let (more, final) = push to_text is_date clock (n + length lines) source payload s in
      (lines ++ more, final)

  outcome-then_cut :
      (n : ℕ) (source : FrameSource) (s : LogLineSplitter) (r : List Text × Text) (payload : List ℕ)
      → outcome n source s (then_cut r (to_text payload))
        ≡ then_push n source payload (outcome n source s r)
  outcome-then_cut n source s (lines, rest) payload =
      let s' = with_partial source rest s in
      let (more, final) = cut (rest ++ to_text payload) in
      rw (
        length-parse_lines is_date clock n source (clean_lines lines),
        push-cut (n + length (clean_lines lines)) source payload s',
        partial-with_partial source rest s,
        with_partial_twice source final rest s,
        clean_lines-append lines more,
        parse_lines-append is_date clock n source (clean_lines lines) (clean_lines more),
      )

  -- Two payloads of one source, cut between two characters, give the lines that they give in one
  -- payload, where each line, the nth of the stream, is parsed at its own time whichever payload
  -- ends it, and they leave the splitter in the same state.
  pub push-append :
      (n : ℕ) (source : FrameSource) (p q : List ℕ) (s : LogLineSplitter)
      → to_text (p ++ q) ≡ to_text p ++ to_text q
      → push to_text is_date clock n source (p ++ q) s
        ≡ then_push n source q (push to_text is_date clock n source p s)
  push-append n source p q s e =
      let before = partial source s in
      push-cut n source (p ++ q) s
      ∙ ap (outcome n source s) (
          ap cut (ap (◌++◌ before) e ∙ sym (append_assoc before (to_text p) (to_text q)))
          ∙ cut-append (before ++ to_text p) (to_text q))
      ∙ outcome-then_cut n source s (cut (before ++ to_text p)) q
      ∙ ap (then_push n source q) (sym (push-cut n source p s))
