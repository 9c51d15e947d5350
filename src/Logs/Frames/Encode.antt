-- ===== src/Logs/Frames/Encode.antt =====
-- The frame format that Docker documents, as an encoder, and the parser as its inverse.
use core_dashboard.Prelude.{
  ℕ, zero, suc, ◌/◌, ◌%◌, ◌^◌, ◌≤◌, ◌<◌, ◌≡◌, refl, ap, ◌∙◌, none, some, List, [], ◌∷◌, ◌++◌, arith,
  flatten, length, length-append, take_of_length, drop_of_length, All,
}
use core_dashboard.Shared.Events.{FrameSource, stdout, stderr}
use core_dashboard.Logs.Frames.{Frame, split_frame, add_frame, parse_frames, push, feed}
use core_dashboard.Logs.Frames.Chunks.{feed-flatten, parse_frames-some, parse_frames-none}

abbrev pub type_of : FrameSource → ℕ
type_of stdout = 1
type_of stderr = 2

abbrev pub encode : Frame → List ℕ
encode (source, payload) =
    let n = length payload in
    type_of source
    ∷ 0
    ∷ 0
    ∷ 0
    ∷ (n / 2 ^ 24)
    ∷ (n / 2 ^ 16 % 256)
    ∷ (n / 2 ^ 8 % 256)
    ∷ (n % 256)
    ∷ payload

abbrev pub encode_all : List Frame → List ℕ
encode_all [] = []
encode_all (frame ∷ frames) = encode frame ++ encode_all frames

-- A payload whose size fits the header's four bytes.
abbrev pub Fits : Frame → Type 0
Fits frame = length frame.1 < 2 ^ 32

split_frame-encode :
    (frame : Frame) (rest : List ℕ)
    → Fits frame
    → split_frame (encode frame ++ rest) ≡ some (frame, rest)
unfolding split_frame
split_frame-encode (stdout, payload) rest h =
    ground
      (arith, length-append payload rest, take_of_length payload rest, drop_of_length payload rest)
split_frame-encode (stderr, payload) rest h =
    ground
      (arith, length-append payload rest, take_of_length payload rest, drop_of_length payload rest)

split_frame-nil : split_frame [] ≡ none
unfolding split_frame
split_frame-nil = refl

parse_frames-encode_all :
    (f : ℕ) (frames : List Frame)
    → length (encode_all frames) ≤ f
    → All Fits frames
    → parse_frames f (encode_all frames) ≡ (frames, [])
parse_frames-encode_all f [] h a = parse_frames-none f [] split_frame-nil
parse_frames-encode_all zero (frame ∷ frames) h a = elim h [ ]
parse_frames-encode_all (suc f) (frame ∷ frames) h (a, as_) =
    parse_frames-some f _ frame (encode_all frames) (split_frame-encode frame (encode_all frames) a)
    ∙ ap (add_frame frame) (
        parse_frames-encode_all f frames
          (omega (arith, length-append (encode frame) (encode_all frames))) as_)

-- Frames that Docker has encoded, each with a payload below 2^32 bytes, come out of the parser as
-- they went in, in order and with no byte left over, however the stream is cut into chunks.
pub feed-encode_all :
    (frames : List Frame) (chunks : List (List ℕ))
    → All Fits frames
    → flatten chunks ≡ encode_all frames
    → feed [] chunks ≡ (frames, [])
unfolding push
feed-encode_all frames chunks a e =
    feed-flatten chunks
    ∙ ap (push []) e
    ∙ parse_frames-encode_all (length (encode_all frames)) frames (omega arith) a
