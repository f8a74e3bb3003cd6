-- ===== src/FrameParser/Frames.antt =====
-- Streams of frames, with other bytes before and between them.
use linux_iot_gateway.Common.{
  ℕ, suc, ◌+◌, ◌%◌, ◌≤◌, true, false, List, [], ◌∷◌, ◌++◌, Bytes, ◌==◌, leb, if◌then◌else◌, length,
  length-append, append_assoc, All, ◌≡◌, refl, ap, ◌∙◌, arith, eq_refl, Option, none,
}
use linux_iot_gateway.FrameParser.{Line, frame_ok, new_parser, add_line, lines}
use linux_iot_gateway.FrameParser.Receiver.{
  Receiver, idle, body, sum, total, receive_length, received, frame,
}
use linux_iot_gateway.FrameParser.Refine.{lines-received}

-- Bytes that are no head, and then a frame.
abbrev pub stream : List (Bytes × Bytes) → Bytes
stream [] = []
stream ((noise, payload) ∷ rest) = noise ++ (frame payload ++ stream rest)

abbrev pub IsNoise : Bytes → Type 0
IsNoise = All (λ byte. (byte == 0xAA) ≡ false)

abbrev pub IsStream : List (Bytes × Bytes) → Type 0
IsStream = All (λ part. IsNoise part.0 × (length part.1 ≤ 32))

abbrev pub frame_lines : List (Bytes × Bytes) → List Line
frame_lines [] = []
frame_lines ((noise, payload) ∷ rest) = frame_ok (length payload) payload ∷ frame_lines rest

received-noise :
    (noise rest : Bytes) → IsNoise noise → received (noise ++ rest) idle ≡ received rest idle
received-noise [] rest h = refl
received-noise (byte ∷ noise) rest (other, h) = rw other (received-noise noise rest h)

-- Behind the payload.
received-checksum :
    (read rest : Bytes)
    → received (total read % 256 ∷ 0x55 ∷ rest) (sum read)
      ≡ frame_ok (length read) read ∷ received rest idle
received-checksum read rest = rw (eq_refl (total read % 256)) refl

-- More is to come of a payload.
unfinished :
    (n k : ℕ) (read : Bytes)
    → n ≡ length read + suc k
    → (if leb n (length read) then sum read else body n read) ≡ body (length read + suc k) read
unfinished n k read e = rw below (ap (λ m. body m read) e)
  where
    below : leb n (length read) ≡ false
    below = ground (arith, e)

finished : (read : Bytes) (byte : ℕ) → leb (length read + 1) (length (read ++ byte ∷ [])) ≡ true
finished read byte = ground (arith, length-append read (byte ∷ []))

-- A byte at least is left of the payload.
received-payload :
    (payload read rest : Bytes) (byte : ℕ)
    → received (byte ∷ payload ++ rest) (body (length read + suc (length payload)) read)
      ≡ received rest (sum (read ++ byte ∷ payload))
received-payload [] read rest byte = rw (finished read byte) refl
received-payload (next ∷ payload) read rest byte =
    let read' = read ++ byte ∷ [] in
    ap (received (next ∷ payload ++ rest)) (
      unfinished (length read + suc (suc (length payload))) (length payload) read'
        (omega (arith, length-append read (byte ∷ []))))
    ∙ received-payload payload read' rest next
    ∙ ap (λ all. received rest (sum all)) (append_assoc read (byte ∷ []) (next ∷ payload))

receive_length-suc : (l : ℕ) → suc l ≤ 32 → receive_length (suc l) ≡ (body (0 + suc l) [], none)
receive_length-suc l h = rw (fits, more) (ap (λ n. (body n [], none)) (omega arith))
  where
    fits : leb (suc l) 32 ≡ true
    fits = ground arith

    more : (suc l == 0) ≡ false
    more = ground arith

received-frame :
    (payload rest : Bytes)
    → length payload ≤ 32
    → received (frame payload ++ rest) idle ≡ frame_ok (length payload) payload ∷ received rest idle
received-frame [] rest h = refl
received-frame (byte ∷ payload) rest h =
    let end = total (byte ∷ payload) % 256 ∷ 0x55 ∷ [] in
    ap (λ bytes. received (0xAA ∷ suc (length payload) ∷ byte ∷ bytes) idle)
      (append_assoc payload end rest)
    ∙ ap
        (λ (t : Receiver × Option Line).
          add_line t.1 (received (byte ∷ payload ++ (end ++ rest)) t.0))
        (receive_length-suc (length payload) h)
    ∙ received-payload payload [] (end ++ rest) byte
    ∙ received-checksum (byte ∷ payload) rest

received-stream :
    (parts : List (Bytes × Bytes))
    → IsStream parts
    → received (stream parts) idle ≡ frame_lines parts
received-stream [] h = refl
received-stream ((noise, payload) ∷ rest) ((quiet, fits), h) =
    received-noise noise (frame payload ++ stream rest) quiet
    ∙ received-frame payload (stream rest) fits
    ∙ ap (λ ls. frame_ok (length payload) payload ∷ ls) (received-stream rest h)

-- From a stream of frames of at most 32 bytes of payload, with any bytes but the head before each of
-- them, the parser prints exactly the frames, each with its length and its payload, in order.
pub lines-stream :
    (parts : List (Bytes × Bytes))
    → IsStream parts
    → lines (stream parts) new_parser ≡ frame_lines parts
lines-stream parts h = (lines-received (stream parts)).0 ∙ received-stream parts h
