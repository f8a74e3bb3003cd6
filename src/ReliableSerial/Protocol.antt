-- ===== src/ReliableSerial/Protocol.antt =====
-- cpp_modules/reliable_serial_demo: `ProtocolCodec` of include/reliable_protocol.h and
-- src/reliable_protocol.cpp.
pub mod RoundTrip
use linux_iot_gateway.Common.{
  ℕ, Bool, not, ◌||◌, [], ◌∷◌, ◌++◌, Option, none, some, Bytes, codes, ◌==◌, if◌then◌else◌, length,
}
use linux_iot_gateway.Common.Words.{high_byte, low_byte, word_of, calculate_checksum}
use linux_iot_gateway.SerialFrame.Codec.{byte_at}

abbrev pub header1 : ℕ
header1 = 0xAA

abbrev pub header2 : ℕ
header2 = 0x55

abbrev pub tail1 : ℕ
tail1 = 0x0D

abbrev pub tail2 : ℕ
tail2 = 0x0A

-- The three enumerations have the underlying type `std::uint8_t`, and the decoders cast any byte to
-- them; their values are bytes here.
abbrev pub type_request : ℕ
type_request = 0x01

abbrev pub type_ack : ℕ
type_ack = 0x02

abbrev pub command_open : ℕ
command_open = 0x01

abbrev pub command_grab : ℕ
command_grab = 0x02

abbrev pub command_release : ℕ
command_release = 0x03

abbrev pub command_stop : ℕ
command_stop = 0x04

abbrev pub result_ok : ℕ
result_ok = 0x00

pub record RequestFrame : Type 0 where
  pub sequence : ℕ
  pub command : ℕ

pub record AckFrame : Type 0 where
  pub sequence : ℕ
  pub result : ℕ

-- The seven bytes, the checksum behind them, and the tail.
abbrev pub sealed : Bytes → Bytes
sealed bytes = bytes ++ calculate_checksum bytes 2 (length bytes) ∷ tail1 ∷ tail2 ∷ []

unfoldable pub encode_request : RequestFrame → Bytes
encode_request frame = sealed (
    header1
    ∷ header2
    ∷ 0x04
    ∷ high_byte frame.sequence
    ∷ low_byte frame.sequence
    ∷ type_request
    ∷ frame.command
    ∷ [])

unfoldable pub encode_ack : AckFrame → Bytes
encode_ack frame = sealed (
    header1
    ∷ header2
    ∷ 0x04
    ∷ high_byte frame.sequence
    ∷ low_byte frame.sequence
    ∷ type_ack
    ∷ frame.result
    ∷ [])

-- `none` is `return false`, which leaves the frame as it was.
unfoldable pub decode_request : Bytes → Option RequestFrame
decode_request bytes =
    if not (length bytes == 10)
    then none
    else if not (byte_at bytes 0 == header1) || not (byte_at bytes 1 == header2)
    then none
    else if not (byte_at bytes 8 == tail1) || not (byte_at bytes 9 == tail2)
    then none
    else if not (byte_at bytes 5 == type_request)
    then none
    else if not (calculate_checksum bytes 2 7 == byte_at bytes 7)
    then none
    else some (record {
      sequence = word_of (byte_at bytes 3) (byte_at bytes 4);
      command = byte_at bytes 6;
    })

unfoldable pub decode_ack : Bytes → Option AckFrame
decode_ack bytes =
    if not (length bytes == 10)
    then none
    else if not (byte_at bytes 0 == header1) || not (byte_at bytes 1 == header2)
    then none
    else if not (byte_at bytes 8 == tail1) || not (byte_at bytes 9 == tail2)
    then none
    else if not (byte_at bytes 5 == type_ack)
    then none
    else if not (calculate_checksum bytes 2 7 == byte_at bytes 7)
    then none
    else some (record {
      sequence = word_of (byte_at bytes 3) (byte_at bytes 4);
      result = byte_at bytes 6;
    })

unfoldable pub command_to_string : ℕ → Bytes
command_to_string command =
    if command == command_open
    then codes "OPEN"
    else if command == command_grab
    then codes "GRAB"
    else if command == command_release
    then codes "RELEASE"
    else if command == command_stop
    then codes "STOP"
    else codes "UNKNOWN"
