-- ===== src/FrameParser.antt =====
-- practice/day01/protocol_parser.c: a parser of frames that is fed byte by byte.
pub mod Receiver
pub mod Refine
pub mod Frames
pub mod Sound
use linux_iot_gateway.Common.{
  ℕ, zero, suc, ◌+◌, ◌/◌, ◌%◌, Bool, List, [], ◌∷◌, ◌++◌, Option, none, some, Bytes, codes, ◌==◌,
  leb, if◌then◌else◌, set, take, ltb, ◌-◌,
}
use linux_iot_gateway.Common.Decimal.{to_string}

abbrev pub head : ℕ
head = 0xAA

abbrev pub tail : ℕ
tail = 0x55

abbrev pub max_payload : ℕ
max_payload = 32

pub data ParserState : Type 0 where
  wait_head wait_len wait_payload wait_checksum wait_tail : ParserState

-- The static variables.
pub record Parser : Type 0 where
  pub state : ParserState
  pub payload : Bytes
  pub payload_len : ℕ
  pub payload_index : ℕ
  pub checksum : ℕ

abbrev zeros : ℕ → Bytes
zeros zero = []
zeros (suc n) = 0 ∷ zeros n

abbrev pub new_parser : Parser
new_parser = record {
  state = wait_head;
  payload = zeros max_payload;
  payload_len = 0;
  payload_index = 0;
  checksum = 0;
}

-- What is printed; a frame with `payload_len` and the bytes of the loop.
pub data Line : Type 0 where
  length_error checksum_error tail_error : Line
  frame_ok : ℕ → Bytes → Line

abbrev hex_digit : ℕ → ℕ
hex_digit n = if ltb n 10 then b'0' + n else b'A' + (n - 10)

abbrev hex : Bytes → Bytes
hex [] = []
hex (b ∷ bytes) = hex_digit (b / 16) ∷ hex_digit (b % 16) ∷ hex bytes

unfoldable pub line_text : Line → Bytes
line_text length_error = codes "Length error\n"
line_text checksum_error = codes "Checksum error\n"
line_text tail_error = codes "Tail error\n"
line_text (frame_ok len payload) =
    codes "Frame OK len=" ++ to_string len ++ codes ",payload:" ++ hex payload ++ b'\n' ∷ []

abbrev feed_len : ℕ → Parser → Parser × Option Line
feed_len byte p =
    if leb byte max_payload
    then (
      record p {
        payload_len = byte;
        payload_index = 0;
        checksum = 0;
        state = if byte == 0 then wait_checksum else wait_payload;
      },
      none,
    )
    else (record p { state = wait_head }, some length_error)

abbrev feed_payload : ℕ → Parser → Parser × Option Line
feed_payload byte p =
    let payload_index = (p.payload_index + 1) % 256 in
    (
      record p {
        payload = set p.payload p.payload_index byte;
        payload_index = payload_index;
        checksum = (p.checksum + byte) % 256;
        state = if leb p.payload_len payload_index then wait_checksum else wait_payload;
      },
      none,
    )

-- The cases of the switch; the state has no other values.
unfoldable pub feed : ParserState → ℕ → Parser → Parser × Option Line
feed wait_head byte p = (record p { state = if byte == head then wait_len else wait_head }, none)
feed wait_len byte p = feed_len byte p
feed wait_payload byte p = feed_payload byte p
feed wait_checksum byte p =
    if byte == p.checksum
    then (record p { state = wait_tail }, none)
    else (record p { state = wait_head }, some checksum_error)
feed wait_tail byte p = (
  record p { state = wait_head },
  some (if byte == tail then frame_ok p.payload_len (take p.payload_len p.payload) else tail_error),
)

unfoldable pub parser_feed : ℕ → Parser → Parser × Option Line
unfolding feed
parser_feed byte p = feed p.state byte p

abbrev pub add_line : Option Line → List Line → List Line
add_line none lines = lines
add_line (some line) lines = line ∷ lines

-- The lines that a stream of bytes makes the parser print.
abbrev pub lines : Bytes → Parser → List Line
lines [] p = []
lines (byte ∷ bytes) p = let (p', line) = parser_feed byte p in add_line line (lines bytes p')

-- The parser behind a stream of bytes.
abbrev pub fed : Bytes → Parser → Parser
fed [] p = p
fed (byte ∷ bytes) p = fed bytes (parser_feed byte p).0
