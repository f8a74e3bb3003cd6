-- ===== src/SerialFrame/StreamParser.antt =====
-- cpp_modules/serial_frame_demo: `StreamParser` of include/serial_frame.h and src/serial_frame.cpp.
pub mod Scan
pub mod Search
pub mod Refine
pub mod Streams
pub mod Sound
use linux_iot_gateway.Common.{
  ℕ, zero, suc, ◌+◌, Bool, not, ◌&&◌, List, [], ◌∷◌, ◌++◌, Option, none, some, Bytes, ltb, ◌==◌,
  if◌then◌else◌, length, get_or, take, drop,
}
use linux_iot_gateway.SerialFrame.Codec.{
  header1, header2, payload_length, Frame, Decoded, ok, err, byte_at, decode,
}

pub record StreamParser : Type 0 where
  pub buffer : Bytes

unfoldable pub append : StreamParser → Bytes → StreamParser
append p bytes = record { buffer = p.buffer ++ bytes }

-- The first position of the header, or the size of the buffer.
unfoldable pub header_position : Bytes → ℕ
header_position [] = 0
header_position (x ∷ []) = 1
header_position (x ∷ y ∷ rest) =
    if x == header1 && y == header2 then 0 else suc (header_position (y ∷ rest))

-- `buffer_.back()`, of a buffer that is not empty.
unfoldable pub last_byte : Bytes → ℕ
last_byte [] = 0
last_byte (x ∷ []) = x
last_byte (x ∷ y ∷ rest) = last_byte (y ∷ rest)

-- One round of the loop of `extractFrames`: it breaks, or goes on behind a byte or a frame.
pub data Round : Type 0 where
  breaks : Bytes → Round
  drops : Bytes → Round
  extracts : Frame → Bytes → Round

-- What the round does with the decoded candidate.
unfoldable pub candidate_round : Bytes → Decoded → Round
candidate_round buffer (ok frame) = extracts frame (drop (payload_length + 6) buffer)
candidate_round buffer (err e) = drops (drop 1 buffer)

-- The round behind the erasure of what stands before the header.
unfoldable pub synced_round : Bytes → Round
unfolding candidate_round
synced_round buffer =
    if ltb (length buffer) 3
    then breaks buffer
    else if not (byte_at buffer 2 == payload_length)
    then drops (drop 1 buffer)
    else let expected_size = byte_at buffer 2 + 6 in
      if ltb (length buffer) expected_size
      then breaks buffer
      else candidate_round buffer (decode (take expected_size buffer))

unfoldable pub round : Bytes → Round
round buffer =
    if ltb (length buffer) 2
    then breaks buffer
    else let position = header_position buffer in
      if position == length buffer
      then breaks (if last_byte buffer == header1 then header1 ∷ [] else [])
      else synced_round (drop position buffer)

-- The loop, with the frames found so far; `none` means that the fuel ran out.
unfoldable pub extract_loop : ℕ → Bytes → List Frame → Option (List Frame × Bytes)
extract_loop zero buffer frames = none
extract_loop (suc fuel) buffer frames = elim (round buffer) [
  | breaks rest ↦ some (frames, rest)
  | drops rest ↦ extract_loop fuel rest frames
  | extracts frame rest ↦ extract_loop fuel rest (frames ++ frame ∷ [])
]

abbrev kept : StreamParser → Option (List Frame × Bytes) → StreamParser × List Frame
kept p none = (p, [])
kept p (some (frames, rest)) = (record { buffer = rest }, frames)

-- Every round that goes on shortens the buffer, so that its length is fuel enough.
unfoldable pub extract_frames : StreamParser → StreamParser × List Frame
unfolding extract_loop
extract_frames p = kept p (extract_loop (suc (length p.buffer)) p.buffer [])
