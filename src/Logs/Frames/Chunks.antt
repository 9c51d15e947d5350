-- ===== src/Logs/Frames/Chunks.antt =====
-- The frames of a stream, and the chunks in which it comes.
use core_dashboard.Prelude.{
  ℕ, zero, suc, ◌+◌, ◌≤◌, ◌<◌, ◌≡◌, refl, ap, sym, ◌∙◌, none, some, List, [], ◌∷◌, ◌++◌,
  append_assoc, append-nil, arith, flatten, length, length-append, length-drop, drop, take-append,
  drop-append, Option-cases, inl, inr,
}
use core_dashboard.Logs.Frames.{
  Frame, read_u32, source_of, split_frame, add_frame, parse_frames, push, feed,
}

read_u32-append : (xs ys : List ℕ) → 4 ≤ length xs → read_u32 (xs ++ ys) ≡ read_u32 xs
read_u32-append (a ∷ b ∷ c ∷ d ∷ xs) ys h = refl
read_u32-append [] ys h = absurd (omega arith)
read_u32-append (a ∷ []) ys h = absurd (omega arith)
read_u32-append (a ∷ b ∷ []) ys h = absurd (omega arith)
read_u32-append (a ∷ b ∷ c ∷ []) ys h = absurd (omega arith)

source_of-append : (xs ys : List ℕ) → 1 ≤ length xs → source_of (xs ++ ys) ≡ source_of xs
source_of-append [] ys h = absurd (omega arith)
source_of-append (x ∷ xs) ys h = refl

-- A frame that is whole stays whole when bytes follow.
split_frame-append :
    (xs ys : List ℕ) (frame : Frame) (rest : List ℕ)
    → split_frame xs ≡ some (frame, rest)
    → split_frame (xs ++ ys) ≡ some (frame, rest ++ ys)
unfolding split_frame
split_frame-append xs ys frame rest e =
    let size = read_u32 (drop 4 xs) in
    ground (
      arith,
      length-append xs ys,
      drop-append 4 xs ys,
      read_u32-append (drop 4 xs) ys,
      length-drop 4 xs,
      length-drop 8 xs,
      source_of-append xs ys,
      drop-append 8 xs ys,
      take-append size (drop 8 xs) ys,
      drop-append (8 + size) xs ys,
    )

split_frame-shorter :
    (xs : List ℕ) (frame : Frame) (rest : List ℕ)
    → split_frame xs ≡ some (frame, rest)
    → length rest < length xs
unfolding split_frame
split_frame-shorter xs frame rest e = ground (arith, length-drop (8 + read_u32 (drop 4 xs)) xs)

pub parse_frames-none : (f : ℕ) (xs : List ℕ) → split_frame xs ≡ none → parse_frames f xs ≡ ([], xs)
unfolding parse_frames
parse_frames-none zero xs e = refl
parse_frames-none (suc f) xs e = ground arith

pub parse_frames-some :
    (f : ℕ) (xs : List ℕ) (frame : Frame) (rest : List ℕ)
    → split_frame xs ≡ some (frame, rest)
    → parse_frames (suc f) xs ≡ add_frame frame (parse_frames f rest)
unfolding parse_frames
parse_frames-some f xs frame rest e = rw (e, parse_frames)

-- A round that finds a frame leaves fuel to spare.
pub shorter :
    {f : ℕ} (xs : List ℕ) (frame : Frame) (rest : List ℕ)
    → split_frame xs ≡ some (frame, rest)
    → length xs ≤ suc f
    → length rest ≤ f
shorter xs frame rest e h = omega (arith, split_frame-shorter xs frame rest e)

pub no_frame : (xs : List ℕ) → length xs ≤ 0 → split_frame xs ≡ none
unfolding split_frame
no_frame xs h = ground arith

-- Any fuel from the length of the buffer on gives one result.
pub parse_frames-fuel :
    (f g : ℕ) (xs : List ℕ) → length xs ≤ f → length xs ≤ g → parse_frames f xs ≡ parse_frames g xs
parse_frames-fuel zero g xs h k =
    parse_frames-none zero xs (no_frame xs h) ∙ sym (parse_frames-none g xs (no_frame xs h))
parse_frames-fuel (suc f) zero xs h k =
    parse_frames-none (suc f) xs (no_frame xs k) ∙ sym (parse_frames-none zero xs (no_frame xs k))
parse_frames-fuel (suc f) (suc g) xs h k = elim (Option-cases (split_frame xs)) [
  | inl stop ↦ parse_frames-none (suc f) xs stop ∙ sym (parse_frames-none (suc g) xs stop)
  | inr ((frame, rest), more) ↦
      let same =
        parse_frames-fuel f g rest (shorter xs frame rest more h) (shorter xs frame rest more k) in
      parse_frames-some f xs frame rest more
      ∙ ap (add_frame frame) same
      ∙ sym (parse_frames-some g xs frame rest more)
]

abbrev then_push : List Frame × List ℕ → List ℕ → List Frame × List ℕ
then_push (frames, buffer) chunk = let (more, final) = push buffer chunk in (frames ++ more, final)

then_push-add_frame :
    (frame : Frame) (r : List Frame × List ℕ) (chunk : List ℕ)
    → then_push (add_frame frame r) chunk ≡ add_frame frame (then_push r chunk)
then_push-add_frame frame (frames, buffer) chunk = refl

append_none :
    (f g : ℕ) (xs ys : List ℕ)
    → split_frame xs ≡ none
    → length (xs ++ ys) ≤ g
    → parse_frames g (xs ++ ys) ≡ then_push (parse_frames f xs) ys
append_none f g xs ys e k =
    rw (parse_frames-none f xs e)
      (unfold push in parse_frames-fuel g (length (xs ++ ys)) (xs ++ ys) k (omega arith))

pub parse_frames-append :
    (f g : ℕ) (xs ys : List ℕ)
    → length xs ≤ f
    → length (xs ++ ys) ≤ g
    → parse_frames g (xs ++ ys) ≡ then_push (parse_frames f xs) ys
parse_frames-append zero g xs ys h k = append_none zero g xs ys (no_frame xs h) k
parse_frames-append (suc f) zero xs ys h k =
    append_none (suc f) zero xs ys (no_frame xs (omega (arith, length-append xs ys))) k
parse_frames-append (suc f) (suc g) xs ys h k = elim (Option-cases (split_frame xs)) [
  | inl stop ↦ append_none (suc f) (suc g) xs ys stop k
  | inr ((frame, rest), more) ↦
      let longer = split_frame-append xs ys frame rest more in
      let ih =
        parse_frames-append f g rest ys (shorter xs frame rest more h)
          (shorter (xs ++ ys) frame (rest ++ ys) longer k) in
      parse_frames-some g (xs ++ ys) frame (rest ++ ys) longer
      ∙ ap (add_frame frame) ih
      ∙ sym (ap (λ r. then_push r ys) (parse_frames-some f xs frame rest more))
]

-- Two chunks give what their concatenation gives.
push-append : (buffer xs ys : List ℕ) → push buffer (xs ++ ys) ≡ then_push (push buffer xs) ys
unfolding push
push-append buffer xs ys =
    let n = length (buffer ++ xs) in
    let m = length (buffer ++ xs ++ ys) in
    rw (← append_assoc buffer xs ys)
      (parse_frames-append n _ (buffer ++ xs) ys (omega arith) (omega arith))

-- What a push keeps holds no whole frame.
split_frame-parse_frames :
    (f : ℕ) (xs : List ℕ) → length xs ≤ f → split_frame (parse_frames f xs).1 ≡ none
split_frame-parse_frames zero xs h = rw (parse_frames-none zero xs (no_frame xs h)) (no_frame xs h)
split_frame-parse_frames (suc f) xs h = elim (Option-cases (split_frame xs)) [
  | inl stop ↦ rw (parse_frames-none (suc f) xs stop) stop
  | inr ((frame, rest), more) ↦
      rw (parse_frames-some f xs frame rest more)
        (split_frame-parse_frames f rest (shorter xs frame rest more h))
]

split_frame-push : (buffer chunk : List ℕ) → split_frame (push buffer chunk).1 ≡ none
unfolding push
split_frame-push buffer chunk =
    split_frame-parse_frames (length (buffer ++ chunk)) (buffer ++ chunk) (omega arith)

push-nil : (buffer : List ℕ) → split_frame buffer ≡ none → push buffer [] ≡ ([], buffer)
unfolding push
push-nil buffer e = rw append-nil (parse_frames-none (length buffer) buffer e)

feed-push :
    (buffer : List ℕ) (chunks : List (List ℕ))
    → split_frame buffer ≡ none
    → feed buffer chunks ≡ push buffer (flatten chunks)
unfolding feed flatten
feed-push buffer [] e = sym (push-nil buffer e)
feed-push buffer (chunk ∷ chunks) e =
    let (frames, rest) = push buffer chunk in
    ap (λ (r : List Frame × List ℕ). (frames ++ r.0, r.1))
      (feed-push rest chunks (split_frame-push buffer chunk))
    ∙ sym (push-append buffer chunk (flatten chunks))

-- However the stream is cut into chunks, the parser hands on the frames, and keeps the bytes, that
-- it would if the stream came in one piece.
pub feed-flatten : (chunks : List (List ℕ)) → feed [] chunks ≡ push [] (flatten chunks)
feed-flatten chunks = feed-push [] chunks (no_frame [] (omega arith))
