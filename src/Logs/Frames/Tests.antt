-- ===== src/Logs/Frames/Tests.antt =====
-- The theorems on frames, at concrete bytes.
use core_dashboard.Prelude.{ℕ, ◌≡◌, refl, List, [], ◌∷◌, arith, flatten, ◌++◌}
use core_dashboard.Shared.Events.{stdout, stderr}
use core_dashboard.Logs.Frames.{Frame, split_frame, parse_frames, push, feed}
use core_dashboard.Logs.Frames.Chunks.{feed-flatten}
use core_dashboard.Logs.Frames.Encode.{feed-encode_all}
use core_dashboard.Logs.Frames.Loop.{Ends, push-Ends}

-- Two frames in three chunks, cut inside a header and inside a payload.
abbrev torn : List (List ℕ)
torn =
    (2 ∷ 0 ∷ 0 ∷ [])
    ∷ (0 ∷ 0 ∷ 0 ∷ 0 ∷ 3 ∷ 65 ∷ [])
    ∷ (66 ∷ 67 ∷ 1 ∷ 0 ∷ 0 ∷ 0 ∷ 0 ∷ 0 ∷ 0 ∷ 1 ∷ 68 ∷ [])
    ∷ []

abbrev whole : List Frame
whole = (stderr, 65 ∷ 66 ∷ 67 ∷ []) ∷ (stdout, 68 ∷ []) ∷ []

torn_frames : feed [] torn ≡ (whole, [])
unfolding feed push parse_frames split_frame
torn_frames = refl

feed-flatten_case : feed [] torn ≡ push [] (flatten torn)
feed-flatten_case = feed-flatten torn

feed-encode_all_example : feed [] torn ≡ (whole, [])
unfolding flatten
feed-encode_all_example = feed-encode_all whole torn (omega arith) refl

-- A chunk with a whole frame and the start of the next.
abbrev chunk : List ℕ
chunk = 1 ∷ 0 ∷ 0 ∷ 0 ∷ 0 ∷ 0 ∷ 0 ∷ 1 ∷ 68 ∷ 2 ∷ 0 ∷ []

push-Ends_example :
    Ends ([] ++ chunk) (push [] chunk)
    × ((result : List Frame × List ℕ) → Ends ([] ++ chunk) result → result ≡ push [] chunk)
push-Ends_example = push-Ends [] chunk
