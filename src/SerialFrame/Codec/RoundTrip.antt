-- ===== src/SerialFrame/Codec/RoundTrip.antt =====
-- `decode` on what `encode` makes, and what it accepts.
use linux_iot_gateway.Common.{
  ap, ◌∙◌, ◌↔◌, ℕ, ◌<◌, true, [], ◌∷◌, ◌≡◌, refl, arith, Bytes, All, length,
}
use linux_iot_gateway.Common.Words.{word_of, word_of_lem, word_of-bytes, calculate_checksum}
use linux_iot_gateway.SerialFrame.Codec.{
  WireCommand, open_hand, grab, release, stop, Frame, ok, encode, decode, to_command,
  is_known_command, command_byte, header1, header2, tail1, tail2,
}

abbrev pub IsByte : ℕ → Type 0
IsByte b = b < 256

pub is_known_command-command_byte : (c : WireCommand) → is_known_command (command_byte c) ≡ true
unfolding is_known_command
is_known_command-command_byte open_hand = refl
is_known_command-command_byte grab = refl
is_known_command-command_byte release = refl
is_known_command-command_byte stop = refl

to_command-command_byte : (c : WireCommand) → to_command (command_byte c) ≡ c
unfolding to_command
to_command-command_byte open_hand = refl
to_command-command_byte grab = refl
to_command-command_byte release = refl
to_command-command_byte stop = refl

command_byte-to_command : (b : ℕ) → is_known_command b ≡ true → command_byte (to_command b) ≡ b
unfolding to_command is_known_command
command_byte-to_command b h = ground arith

pub decode-encode : (f : Frame) → f.sequence < 65536 → decode (encode f) ≡ ok f
unfolding decode encode calculate_checksum
decode-encode f h = ground (
  arith,
  is_known_command-command_byte f.command,
  to_command-command_byte f.command,
  word_of-bytes f.sequence h,
)

pub data Nine : Bytes → Type 0 where
  nine : (b0 b1 b2 b3 b4 b5 b6 b7 b8 : ℕ) → Nine (b0 ∷ b1 ∷ b2 ∷ b3 ∷ b4 ∷ b5 ∷ b6 ∷ b7 ∷ b8 ∷ [])

to_nine : (bytes : Bytes) → length bytes ≡ 9 → Nine bytes
to_nine (b0 ∷ b1 ∷ b2 ∷ b3 ∷ b4 ∷ b5 ∷ b6 ∷ b7 ∷ b8 ∷ []) h = nine b0 b1 b2 b3 b4 b5 b6 b7 b8
to_nine _ h = absurd (omega arith)

decode-length : (bytes : Bytes) (f : Frame) → decode bytes ≡ ok f → length bytes ≡ 9
unfolding decode
decode-length bytes f e = ground arith

sound-Nine :
    (bytes : Bytes) (f : Frame)
    → Nine bytes
    → All IsByte bytes
    → decode bytes ≡ ok f
    → (bytes ≡ encode f) × (f.sequence < 65536)
unfolding decode encode calculate_checksum
sound-Nine _ f (nine b0 b1 b2 b3 b4 b5 b6 b7 b8) small e =
    let facts : (b0 ≡ header1)
        × (b1 ≡ header2)
        × (b2 ≡ 3)
        × (b7 ≡ tail1)
        × (b8 ≡ tail2)
        × (b6 ≡ calculate_checksum (b0 ∷ b1 ∷ 3 ∷ b3 ∷ b4 ∷ b5 ∷ b6 ∷ b7 ∷ b8 ∷ []) 2 6)
        × (is_known_command b5 ≡ true)
        × (f.sequence ≡ word_of b3 b4)
        × (f.command ≡ to_command b5) =
      ground arith in
    ground (arith, word_of_lem b3 b4, command_byte-to_command b5)

pub decode_sound :
    (bytes : Bytes) (f : Frame)
    → All IsByte bytes
    → decode bytes ≡ ok f
    → (bytes ≡ encode f) × (f.sequence < 65536)
decode_sound bytes f small e = sound-Nine bytes f (to_nine bytes (decode-length bytes f e)) small e

-- Bytes are decoded to a frame exactly when they are its encoding and its sequence number has 16
-- bits: the round trip holds for each such frame, and no other bytes are decoded to it.
pub decode_iff :
    (bytes : Bytes) (f : Frame)
    → All IsByte bytes
    → (decode bytes ≡ ok f) ↔ ((bytes ≡ encode f) × (f.sequence < 65536))
decode_iff bytes f small = (decode_sound bytes f small, λ h. ap decode h.0 ∙ decode-encode f h.1)
