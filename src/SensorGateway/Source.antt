-- ===== src/SensorGateway/Source.antt =====
-- data_source.c: the serial port, and the list of lines that stands for it when `USE_MOCK_DATA` is 1.
-- What the kernel answers is an argument: a record of results, or the results of `read` in order.
pub mod Lines
pub mod Reads
pub mod Mock
use linux_iot_gateway.Common.{
  ℕ, zero, suc, ◌+◌, ◌-◌, Bool, true, false, not, ◌&&◌, ◌||◌, List, [], ◌∷◌, ◌++◌, Option, none,
  some, Bytes, codes, if◌then◌else◌, ◌==◌, leb, take, is_empty, length, get_or,
}

-- `open`, `tcgetattr`, the two speeds, `tcflush` and `tcsetattr`: the descriptor, if it is not
-- negative, and whether the others return 0.
pub record SerialReplies : Type 0 where
  pub open_fd : Option ℕ
  pub getattr_ok : Bool
  pub speed_ok : Bool
  pub flush_ok : Bool
  pub setattr_ok : Bool

unfoldable pub serial_configure : SerialReplies → Bool
serial_configure replies =
    if not replies.getattr_ok
    then false
    else if not replies.speed_ok
    then false
    else if not replies.flush_ok
    then false
    else replies.setattr_ok

-- `serial_fd` with `none` for -1, and the descriptors that have been closed.
pub record SerialPort : Type 0 where
  pub serial_fd : Option ℕ
  pub closed : List ℕ

-- Behind `open`.
unfoldable pub opened : SerialReplies → SerialPort → Option ℕ → SerialPort × Bool
opened replies port none = (record port { serial_fd = none }, false)
opened replies port (some fd) =
    if not (serial_configure replies)
    then (record port { serial_fd = none; closed = port.closed ++ fd ∷ [] }, false)
    else (record port { serial_fd = some fd }, true)

-- `data_source_init`, and whether it returns 0.
unfoldable pub data_source_init : SerialReplies → SerialPort → SerialPort × Bool
unfolding serial_configure opened
data_source_init replies port = opened replies port replies.open_fd

unfoldable pub data_source_cleanup : SerialPort → SerialPort
data_source_cleanup port = elim port.serial_fd [
  | none ↦ port
  | some fd ↦ record { serial_fd = none; closed = port.closed ++ fd ∷ [] }
]

-- One return of `read`: a byte, nothing within the time, `EINTR`, or another error.
pub data ReadReply : Type 0 where
  received : ℕ → ReadReply
  timed_out : ReadReply
  interrupted : ReadReply
  failed : ReadReply

-- What `data_source_read` returns: 0 with a line, -1 with nothing read, -1 after an error or at
-- once, or it still waits for a reply.
pub data ReadResult : Type 0 where
  line : Bytes → ReadResult
  no_data : ReadResult
  read_failed : ReadResult
  waiting : ReadResult

abbrev pub is_line_end : ℕ → Bool
is_line_end ch = ch == b'\r' || ch == b'\n'

abbrev pub finish : Bytes → ReadResult
finish buf = if is_empty buf then no_data else line buf

-- The buffer behind a reply.
abbrev pub store : ReadReply → Bytes → Bytes
store (received ch) buf = if is_line_end ch then buf else buf ++ ch ∷ []
store _ buf = buf

-- Whether the reply ends the loop, with what, or `again` is what follows.
abbrev pub react :
    ReadReply → Bytes → List ReadReply → ReadResult × List ReadReply → ReadResult × List ReadReply
react (received ch) buf replies again =
    if is_line_end ch && not (is_empty buf) then (line buf, replies) else again
react timed_out buf replies again = (finish buf, replies)
react interrupted buf replies again = again
react failed buf replies again = (read_failed, replies)

-- `while (total < buf_size - 1)`, with what is in the buffer, and the replies that are left.
unfoldable pub read_loop : ℕ → List ReadReply → Bytes → ReadResult × List ReadReply
read_loop limit [] buf = if leb limit (length buf) then (finish buf, []) else (waiting, [])
read_loop limit (reply ∷ replies) buf =
    let again = read_loop limit replies (store reply buf) in
    if leb limit (length buf) then (finish buf, reply ∷ replies) else react reply buf replies again

unfoldable pub read_from : Option ℕ → ℕ → List ReadReply → ReadResult × List ReadReply
read_from none buf_size replies = (read_failed, replies)
read_from (some fd) buf_size replies =
    if leb buf_size 1 then (read_failed, replies) else read_loop (buf_size - 1) replies []

unfoldable pub data_source_read : SerialPort → ℕ → List ReadReply → ReadResult × List ReadReply
unfolding read_from read_loop
data_source_read port buf_size replies = read_from port.serial_fd buf_size replies

abbrev pub mock_data_list : List Bytes
mock_data_list =
    codes "temp=25,humi=60,device_id=stm32_01"
    ∷ codes "temp=26,humi=61,device_id=stm32_01"
    ∷ codes "bad data_from_stm32"
    ∷ codes "temp=28,humi=63,device_id=stm32_01"
    ∷ codes "temp=29,humi=64,device_id=stm32_01"
    ∷ []

-- `data_source_read` of the mock: the text in the buffer and the next `mock_index`, or -1.
unfoldable pub mock_read : ℕ → ℕ → Option Bytes × ℕ
mock_read buf_size mock_index = if buf_size == 0 then (none, mock_index) else (
  some (take (buf_size - 1) (get_or mock_data_list mock_index [])),
  if leb (length mock_data_list) (mock_index + 1) then 0 else mock_index + 1,
)
