-- ===== src/ReliableSerial/Protocol/RoundTrip.antt =====
-- The decoders on what the encoders make, and what they accept.
use linux_iot_gateway.Common.{
  ℕ, ◌<◌, [], ◌∷◌, none, some, ◌≡◌, refl, ap, ◌∙◌, arith, Bytes, All, length,
}
use linux_iot_gateway.Common.Words.{
  high_byte, low_byte, word_of_lem, word_of-bytes, calculate_checksum,
}
use linux_iot_gateway.SerialFrame.Codec.RoundTrip.{IsByte}
use linux_iot_gateway.ReliableSerial.Protocol.{
  RequestFrame, AckFrame, sealed, encode_request, encode_ack, decode_request, decode_ack, header1,
  header2, type_request,
}

-- The encoding with any byte in the place of the length.
abbrev pub with_length : ℕ → RequestFrame → Bytes
with_length b f = sealed (
    header1
    ∷ header2
    ∷ b
    ∷ high_byte f.sequence
    ∷ low_byte f.sequence
    ∷ type_request
    ∷ f.command
    ∷ [])

decode_request-with_length :
    (b : ℕ) (f : RequestFrame) → f.sequence < 65536 → decode_request (with_length b f) ≡ some f
unfolding decode_request calculate_checksum
decode_request-with_length b f h = ground (arith, word_of-bytes f.sequence h)

data Ten : Bytes → Type 0 where
  ten :
      (b0 b1 b2 b3 b4 b5 b6 b7 b8 b9 : ℕ)
      → Ten (b0 ∷ b1 ∷ b2 ∷ b3 ∷ b4 ∷ b5 ∷ b6 ∷ b7 ∷ b8 ∷ b9 ∷ [])

to_ten : (bytes : Bytes) → length bytes ≡ 10 → Ten bytes
to_ten (b0 ∷ b1 ∷ b2 ∷ b3 ∷ b4 ∷ b5 ∷ b6 ∷ b7 ∷ b8 ∷ b9 ∷ []) h = ten b0 b1 b2 b3 b4 b5 b6 b7 b8 b9
to_ten _ h = absurd (omega arith)

decode_request-length :
    (bytes : Bytes) (f : RequestFrame) → decode_request bytes ≡ some f → length bytes ≡ 10
unfolding decode_request
decode_request-length bytes f e = ground arith

sound-Ten :
    (bytes : Bytes) (f : RequestFrame)
    → Ten bytes
    → All IsByte bytes
    → decode_request bytes ≡ some f
    → (b : ℕ) × (bytes ≡ with_length b f)
unfolding decode_request calculate_checksum
sound-Ten _ f (ten b0 b1 b2 b3 b4 b5 b6 b7 b8 b9) small e = (b2, ground (arith, word_of_lem b3 b4))

-- A request with a number of 16 bits is decoded from its encoding with any byte in the place of the
-- length, which the decoder does not read, and, among bytes, from nothing else.
pub decode_request_iff :
    (bytes : Bytes) (f : RequestFrame)
    → All IsByte bytes
    → f.sequence < 65536
    → ((decode_request bytes ≡ some f → (b : ℕ) × (bytes ≡ with_length b f))
        × (((b : ℕ) × (bytes ≡ with_length b f)) → decode_request bytes ≡ some f))
decode_request_iff bytes f small h = (
  λ e. sound-Ten bytes f (to_ten bytes (decode_request-length bytes f e)) small e,
  λ (b, same). ap decode_request same ∙ decode_request-with_length b f h,
)

-- Each decoder gives back what its encoder was given, and refuses what the other encoder makes.
pub decode_encode_lem :
    (f : RequestFrame) (a : AckFrame)
    → f.sequence < 65536
    → a.sequence < 65536
    → (decode_request (encode_request f) ≡ some f)
      × (decode_ack (encode_ack a) ≡ some a)
      × (decode_request (encode_ack a) ≡ none)
      × (decode_ack (encode_request f) ≡ none)
unfolding decode_request decode_ack encode_request encode_ack calculate_checksum
decode_encode_lem f a hf ha = (
  ground (arith, word_of-bytes f.sequence hf),
  ground (arith, word_of-bytes a.sequence ha),
  refl,
  refl,
)
