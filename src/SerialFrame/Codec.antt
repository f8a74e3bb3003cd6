-- ===== src/SerialFrame/Codec.antt =====
-- cpp_modules/serial_frame_demo: `FrameCodec` of include/serial_frame.h and src/serial_frame.cpp.
pub mod RoundTrip
use linux_iot_gateway.Common.{
  ℕ, ◌+◌, ◌-◌, Bool, not, ◌||◌, ◌&&◌, [], ◌∷◌, ◌++◌, Bytes, codes, ltb, ◌==◌, if◌then◌else◌, length,
  get_or, Option, none, some, ◌/◌, ◌%◌,
}
use linux_iot_gateway.Common.Words.{high_byte, low_byte, word_of, calculate_checksum}

abbrev pub header1 : ℕ
header1 = 0xAA

abbrev pub header2 : ℕ
header2 = 0x55

abbrev pub tail1 : ℕ
tail1 = 0x0D

abbrev pub tail2 : ℕ
tail2 = 0x0A

abbrev pub payload_length : ℕ
payload_length = 3

-- `Open` is `open_hand` here.
pub data WireCommand : Type 0 where
  open_hand grab release stop : WireCommand

abbrev pub command_byte : WireCommand → ℕ
command_byte open_hand = 0x01
command_byte grab = 0x02
command_byte release = 0x03
command_byte stop = 0x04

pub record Frame : Type 0 where
  pub sequence : ℕ
  pub command : WireCommand

-- `DecodeError::None` is success.
pub data DecodeError : Type 0 where
  invalid_header invalid_length invalid_tail checksum_mismatch unknown_command : DecodeError

pub data Decoded : Type 0 where
  ok : Frame → Decoded
  err : DecodeError → Decoded

unfoldable pub is_known_command : ℕ → Bool
is_known_command command =
    command == command_byte open_hand
    || command == command_byte grab
    || command == command_byte release
    || command == command_byte stop

-- `static_cast<WireCommand>` of a byte that is known.
unfoldable pub to_command : ℕ → WireCommand
to_command byte =
    if byte == command_byte open_hand
    then open_hand
    else if byte == command_byte grab
    then grab
    else if byte == command_byte release
    then release
    else stop

abbrev payload : Frame → Bytes
payload frame =
    header1
    ∷ header2
    ∷ payload_length
    ∷ high_byte frame.sequence
    ∷ low_byte frame.sequence
    ∷ command_byte frame.command
    ∷ []

unfoldable pub encode : Frame → Bytes
encode frame =
    let bytes = payload frame in
    let checksum = calculate_checksum bytes 2 (length bytes) in
    bytes ++ checksum ∷ tail1 ∷ tail2 ∷ []

abbrev pub byte_at : Bytes → ℕ → ℕ
byte_at bytes index = get_or bytes index 0

-- Behind the checks of the header and of both lengths.
unfoldable pub decode_body : Bytes → ℕ → Decoded
unfolding is_known_command to_command
decode_body bytes expected_size =
    if not (byte_at bytes (expected_size - 2) == tail1)
      || not (byte_at bytes (expected_size - 1) == tail2)
    then err invalid_tail
    else let checksum_index = 3 + byte_at bytes 2 in
      if not (byte_at bytes checksum_index == calculate_checksum bytes 2 checksum_index)
      then err checksum_mismatch
      else if not (is_known_command (byte_at bytes 5))
      then err unknown_command
      else ok (record {
        sequence = word_of (byte_at bytes 3) (byte_at bytes 4);
        command = to_command (byte_at bytes 5);
      })

unfoldable pub decode : Bytes → Decoded
unfolding decode_body
decode bytes =
    if ltb (length bytes) 3
    then err invalid_length
    else if not (byte_at bytes 0 == header1) || not (byte_at bytes 1 == header2)
    then err invalid_header
    else if not (byte_at bytes 2 == payload_length)
    then err invalid_length
    else let expected_size = byte_at bytes 2 + 6 in
      if not (length bytes == expected_size)
      then err invalid_length
      else decode_body bytes expected_size

unfoldable pub command_to_string : WireCommand → Bytes
command_to_string open_hand = codes "OPEN"
command_to_string grab = codes "GRAB"
command_to_string release = codes "RELEASE"
command_to_string stop = codes "STOP"

unfoldable pub error_to_string : Option DecodeError → Bytes
error_to_string none = codes "NONE"
error_to_string (some invalid_header) = codes "INVALID_HEADER"
error_to_string (some invalid_length) = codes "INVALID_LENGTH"
error_to_string (some invalid_tail) = codes "INVALID_TAIL"
error_to_string (some checksum_mismatch) = codes "CHECKSUM_MISMATCH"
error_to_string (some unknown_command) = codes "UNKNOWN_COMMAND"

-- Upper case, two digits a byte.
abbrev hex_digit : ℕ → ℕ
hex_digit n = if ltb n 10 then b'0' + n else b'A' + (n - 10)

unfoldable pub to_hex : Bytes → Bytes
to_hex [] = []
to_hex (b ∷ []) = hex_digit (b / 16) ∷ hex_digit (b % 16) ∷ []
to_hex (b ∷ c ∷ bytes) = hex_digit (b / 16) ∷ hex_digit (b % 16) ∷ b' ' ∷ to_hex (c ∷ bytes)
