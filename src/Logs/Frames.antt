-- ===== src/Logs/Frames.antt =====
-- `DockerFrameParser` of apps/api/src/logs/docker-frames.ts: the multiplexed stream of Docker, cut
-- into frames `[type, 0, 0, 0, size u32 BE, payload]`. Bytes are numbers. A push returns the
-- payloads handed to `onPayload`, in order. The loop takes fuel: the length of the buffer is
-- enough, since a frame has eight bytes of header.
pub mod Chunks
pub mod Encode
pub mod Loop
mod Tests
use core_dashboard.Prelude.{
  ℕ, zero, suc, ◌+◌, ◌*◌, ◌^◌, Bool, Option, none, some, List, [], ◌∷◌, ◌++◌, ltb, leb,
  if◌then◌else◌, length, take, drop, ◌==◌, number_equality,
}
use core_dashboard.Shared.Events.{FrameSource, stdout, stderr}

abbrev pub Frame : Type 0
Frame = FrameSource × List ℕ

-- `buffer.readUInt32BE(4)` on the bytes from the fourth on.
abbrev pub read_u32 : List ℕ → ℕ
read_u32 (a ∷ b ∷ c ∷ d ∷ _) = a * 2 ^ 24 + b * 2 ^ 16 + c * 2 ^ 8 + d
read_u32 _ = 0

abbrev pub source_of : List ℕ → FrameSource
source_of [] = stdout
source_of (type ∷ _) = if type == 2 then stderr else stdout

-- One round of the loop: a whole frame at the head of the buffer, and what follows it.
unfoldable pub split_frame : List ℕ → Option (Frame × List ℕ)
split_frame buffer =
    let size = read_u32 (drop 4 buffer) in
    if leb 8 (length buffer)
    then (if ltb (length buffer) (8 + size)
        then none
        else some ((source_of buffer, take size (drop 8 buffer)), drop (8 + size) buffer))
    else none

abbrev pub add_frame : Frame → List Frame × List ℕ → List Frame × List ℕ
add_frame frame (frames, buffer) = (frame ∷ frames, buffer)

unfoldable pub parse_frames : ℕ → List ℕ → List Frame × List ℕ
parse_frames zero buffer = ([], buffer)
parse_frames (suc fuel) buffer = elim (split_frame buffer) [
  | none ↦ ([], buffer)
  | some (frame, rest) ↦ add_frame frame (parse_frames fuel rest)
]

-- `push(chunk)` on the bytes kept from before: the frames handed on, and the new buffer.
unfoldable pub push : List ℕ → List ℕ → List Frame × List ℕ
push buffer chunk = parse_frames (length (buffer ++ chunk)) (buffer ++ chunk)

-- A stream that arrives in chunks.
unfoldable pub feed : List ℕ → List (List ℕ) → List Frame × List ℕ
feed buffer [] = ([], buffer)
feed buffer (chunk ∷ chunks) =
    let (frames, buffer') = push buffer chunk in
    let (more, final) = feed buffer' chunks in (frames ++ more, final)
