-- ===== src/Logs/Frames/Loop.antt =====
-- The loop of `push` of docker-frames.ts as a relation, without fuel.
use core_dashboard.Prelude.{
  ℕ, zero, suc, ◌≤◌, ◌≡◌, ◌∙◌, ap, sym, none, some, List, [], ◌++◌, arith, length, Option-cases,
  inl, inr,
}
use core_dashboard.Logs.Frames.{Frame, split_frame, add_frame, parse_frames, push}
use core_dashboard.Logs.Frames.Chunks.{parse_frames-none, parse_frames-some, shorter, no_frame}

-- The loop from a buffer comes to a result: it stops where no frame is whole, and a round takes a
-- frame off the buffer.
pub data Ends : List ℕ → List Frame × List ℕ → Type 0 where
  stop :
      {buffer : List ℕ} {result : List Frame × List ℕ}
      → split_frame buffer ≡ none
      → result ≡ ([], buffer)
      → Ends buffer result
  round :
      {buffer : List ℕ} {result : List Frame × List ℕ} (frame : Frame) (rest : List ℕ)
      (more : List Frame × List ℕ)
      → split_frame buffer ≡ some (frame, rest)
      → Ends rest more
      → result ≡ add_frame frame more
      → Ends buffer result

parse_frames-Ends :
    (f : ℕ) (buffer : List ℕ) → length buffer ≤ f → Ends buffer (parse_frames f buffer)
parse_frames-Ends zero buffer h =
    let none_left = no_frame buffer h in stop none_left (parse_frames-none zero buffer none_left)
parse_frames-Ends (suc f) buffer h = elim (Option-cases (split_frame buffer)) [
  | inl e ↦ stop e (parse_frames-none (suc f) buffer e)
  | inr ((frame, rest), e) ↦
      round frame rest (parse_frames f rest) e
        (parse_frames-Ends f rest (shorter buffer frame rest e h))
        (parse_frames-some f buffer frame rest e)
]

Ends-parse_frames :
    (f : ℕ) (buffer : List ℕ) (result : List Frame × List ℕ)
    → length buffer ≤ f
    → Ends buffer result
    → result ≡ parse_frames f buffer
Ends-parse_frames f buffer result h (stop e r) = r ∙ sym (parse_frames-none f buffer e)
Ends-parse_frames zero buffer result h (round frame rest more e loop r) =
    absurd (ground (arith, no_frame buffer h))
Ends-parse_frames (suc f) buffer result h (round frame rest more e loop r) =
    r
    ∙ ap (add_frame frame) (Ends-parse_frames f rest more (shorter buffer frame rest e h) loop)
    ∙ sym (parse_frames-some f buffer frame rest e)

-- The loop over the kept bytes and a chunk ends, with the frames and the bytes that `push` gives,
-- and with nothing else.
pub push-Ends :
    (buffer chunk : List ℕ)
    → Ends (buffer ++ chunk) (push buffer chunk)
      × ((result : List Frame × List ℕ)
          → Ends (buffer ++ chunk) result
          → result ≡ push buffer chunk)
unfolding push
push-Ends buffer chunk =
    let bytes = buffer ++ chunk in
    (
      parse_frames-Ends (length bytes) bytes (omega arith),
      λ result loop. Ends-parse_frames (length bytes) bytes result (omega arith) loop,
    )
