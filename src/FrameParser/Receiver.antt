-- ===== src/FrameParser/Receiver.antt =====
-- What the parser stands for: a receiver that holds the payload it has read so far as a list.
use linux_iot_gateway.Common.{
  ℕ, ◌+◌, ◌%◌, [], ◌∷◌, ◌++◌, List, Option, none, some, Bytes, ◌==◌, leb, if◌then◌else◌, length,
}
use linux_iot_gateway.FrameParser.{
  Line, length_error, checksum_error, tail_error, frame_ok, add_line,
}

pub data Receiver : Type 0 where
  idle sized : Receiver
  body : ℕ → Bytes → Receiver
  sum ends : Bytes → Receiver

abbrev pub total : Bytes → ℕ
total [] = 0
total (b ∷ bytes) = b + total bytes

abbrev pub receive_length : ℕ → Receiver × Option Line
receive_length byte =
    if leb byte 32
    then (if byte == 0 then sum [] else body byte [], none)
    else (idle, some length_error)

abbrev pub receive : ℕ → Receiver → Receiver × Option Line
receive byte idle = (if byte == 0xAA then sized else idle, none)
receive byte sized = receive_length byte
receive byte (body n read) =
    let read' = read ++ byte ∷ [] in
    (if leb n (length read') then sum read' else body n read', none)
receive byte (sum read) =
    if byte == total read % 256 then (ends read, none) else (idle, some checksum_error)
receive byte (ends read) =
    (idle, some (if byte == 0x55 then frame_ok (length read) read else tail_error))

abbrev pub received : Bytes → Receiver → List Line
received [] r = []
received (byte ∷ bytes) r = let (r', line) = receive byte r in add_line line (received bytes r')

abbrev pub receiver : Bytes → Receiver → Receiver
receiver [] r = r
receiver (byte ∷ bytes) r = receiver bytes (receive byte r).0

-- A frame on the wire.
abbrev pub frame : Bytes → Bytes
frame payload = 0xAA ∷ length payload ∷ (payload ++ (total payload % 256) ∷ 0x55 ∷ [])
