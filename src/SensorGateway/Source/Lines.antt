-- ===== src/SensorGateway/Source/Lines.antt =====
-- One call of `data_source_read`.
use linux_iot_gateway.Common.{
  ℕ, ◌-◌, ◌≤◌, ◌<◌, false, not, ◌&&◌, List, [], ◌∷◌, Option, none, some, Bytes, leb, is_empty,
  length, ◌≡◌, refl, arith, Bool-cases, inl, inr, All, All-append, length-append,
}
use linux_iot_gateway.SensorGateway.Source.{
  SerialPort, ReadReply, ReadResult, received, timed_out, interrupted, failed, line, is_line_end,
  finish, store, react, read_loop, read_from, data_source_read,
}

abbrev pub IsLineByte : ℕ → Type 0
IsLineByte ch = is_line_end ch ≡ false

-- A line that is returned.
abbrev pub LineFits : ℕ → ReadResult → Type 0
LineFits limit (line text) = (is_empty text ≡ false) × (length text ≤ limit) × All IsLineByte text
LineFits limit _ = Unit {0}

finish-LineFits :
    (limit : ℕ) (buf : Bytes)
    → length buf ≤ limit
    → All IsLineByte buf
    → LineFits limit (finish buf)
finish-LineFits limit [] h all = tt
finish-LineFits limit (c ∷ buf) h all = (refl, h, all)

store-bounds :
    (limit : ℕ) (reply : ReadReply) (buf : Bytes)
    → length buf < limit
    → All IsLineByte buf
    → (length (store reply buf) ≤ limit) × All IsLineByte (store reply buf)
store-bounds limit (received ch) buf h all = elim (Bool-cases (is_line_end ch)) [
  | inl ends ↦ rw ends (omega arith, all)
  | inr keeps ↦ rw keeps (
    omega (arith, length-append buf (ch ∷ [])),
    All-append IsLineByte buf (ch ∷ []) all (keeps, tt),
  )
]
store-bounds limit timed_out buf h all = (omega arith, all)
store-bounds limit interrupted buf h all = (omega arith, all)
store-bounds limit failed buf h all = (omega arith, all)

react-LineFits :
    (limit : ℕ) (reply : ReadReply) (buf : Bytes) (replies : List ReadReply)
    (again : ReadResult × List ReadReply)
    → length buf ≤ limit
    → All IsLineByte buf
    → LineFits limit again.0
    → LineFits limit (react reply buf replies again).0
react-LineFits limit (received ch) buf replies again h all fits =
    elim (Bool-cases (is_line_end ch && not (is_empty buf))) [
      | inl ends ↦ rw ends (ground arith, h, all)
      | inr more ↦ rw more fits
    ]
react-LineFits limit timed_out buf replies again h all fits = finish-LineFits limit buf h all
react-LineFits limit interrupted buf replies again h all fits = fits
react-LineFits limit failed buf replies again h all fits = tt

read_loop-LineFits :
    (limit : ℕ) (replies : List ReadReply) (buf : Bytes)
    → length buf ≤ limit
    → All IsLineByte buf
    → LineFits limit (read_loop limit replies buf).0
unfolding read_loop
read_loop-LineFits limit [] buf h all = elim (Bool-cases (leb limit (length buf))) [
  | inl full ↦ rw full (finish-LineFits limit buf h all)
  | inr room ↦ rw room tt
]
read_loop-LineFits limit (reply ∷ replies) buf h all = elim (Bool-cases (leb limit (length buf))) [
  | inl full ↦ rw full (finish-LineFits limit buf h all)
  | inr room ↦
      let (h', all') = store-bounds limit reply buf (ground arith) all in
      rw room (
        react-LineFits limit reply buf replies (read_loop limit replies (store reply buf)) h all
          (read_loop-LineFits limit replies (store reply buf) h' all'))
]

read_from-LineFits :
    (fd : Option ℕ) (buf_size : ℕ) (replies : List ReadReply)
    → LineFits (buf_size - 1) (read_from fd buf_size replies).0
unfolding read_from
read_from-LineFits none buf_size replies = tt
read_from-LineFits (some fd) buf_size replies = elim (Bool-cases (leb buf_size 1)) [
  | inl small ↦ rw small tt
  | inr room ↦ rw room (read_loop-LineFits (buf_size - 1) replies [] (omega arith) tt)
]

-- A line that is returned has a byte at least, leaves room for its NUL in the buffer, and holds no
-- end of line.
pub data_source_read-LineFits :
    (port : SerialPort) (buf_size : ℕ) (replies : List ReadReply)
    → LineFits (buf_size - 1) (data_source_read port buf_size replies).0
unfolding data_source_read
data_source_read-LineFits port buf_size replies = read_from-LineFits port.serial_fd buf_size replies
