-- ===== src/SensorGateway/Source/Reads.antt =====
-- Calls of `data_source_read` one after the other, on a stream of lines.
use linux_iot_gateway.Common.{
  ℕ, zero, suc, ◌+◌, ◌-◌, ◌≤◌, ◌<◌, true, false, List, [], ◌∷◌, ◌++◌, some, Bytes, leb, is_empty,
  length, ◌≡◌, refl, sym, ap, ◌∙◌, subst, arith, Bool-cases, inl, inr, All, length-append,
  append_assoc, append-nil,
}
use linux_iot_gateway.SensorGateway.Source.{
  SerialPort, ReadReply, ReadResult, received, interrupted, line, is_line_end, read_loop, read_from,
  data_source_read,
}
use linux_iot_gateway.SensorGateway.Source.Lines.{IsLineByte}

-- The replies bring the bytes of a text, with interruptions in front of any, and then the rest.
pub data Carries (rest : List ReadReply) : List ReadReply → Bytes → Type 0 where
  done : Carries rest rest []
  byte :
      {replies : List ReadReply} {ch : ℕ} {text : Bytes}
      → Carries rest replies text
      → Carries rest (received ch ∷ replies) (ch ∷ text)
  pause :
      {replies : List ReadReply} {ch : ℕ} {text : Bytes}
      → Carries rest replies (ch ∷ text)
      → Carries rest (interrupted ∷ replies) (ch ∷ text)

abbrev pub LineEnds : Bytes → Type 0
LineEnds = All (λ ch. is_line_end ch ≡ true)

-- Lines, each with the line ends behind it.
pub record Chunk : Type 0 where
  pub text : Bytes
  pub ends : Bytes

abbrev pub joined : List Chunk → Bytes
joined [] = []
joined (c ∷ cs) = c.text ++ (c.ends ++ joined cs)

abbrev pub lines_of : List Chunk → List ReadResult
lines_of [] = []
lines_of (c ∷ cs) = line c.text ∷ lines_of cs

pub record IsChunk (limit : ℕ) (c : Chunk) : Type 0 where
  pub some_byte : is_empty c.text ≡ false
  pub short : length c.text ≤ limit
  pub line_bytes : All IsLineByte c.text
  pub some_end : is_empty c.ends ≡ false
  pub line_ends : LineEnds c.ends

abbrev Splits : List ReadReply → List ReadReply → Bytes → Bytes → Type 0
Splits rest replies a b = (mid : List ReadReply) × Carries mid replies a × Carries rest mid b

room :
    (limit : ℕ) (buf text : Bytes)
    → length buf + suc (length text) ≤ limit
    → leb limit (length buf) ≡ false
room limit buf text h = ground arith

split_replies :
    {rest replies : List ReadReply} {t : Bytes} (a b : Bytes)
    → t ≡ a ++ b
    → Carries rest replies t
    → Splits rest replies a b
split_replies {rest} {replies} [] b e c = (replies, done, subst (Carries rest replies) e c)
split_replies (x ∷ a) b e done = cc
split_replies {rest} (x ∷ a) b e (byte {replies} {ch} {text} c) =
    let tail : text ≡ a ++ b = cc in
    let head : ch ≡ x = cc in
    let (mid, c1, c2) = split_replies a b tail c in
    (mid, subst (λ y. Carries mid (received ch ∷ replies) (y ∷ a)) head (byte c1), c2)
split_replies {rest} (x ∷ a) b e (pause {replies} {ch} {text} c) =
    let (mid, c1, c2) = split_replies (x ∷ a) b e c in (mid, pause c1, c2)

-- Bytes of a line are stored as long as there is room.
line_bytes_read :
    (limit : ℕ) {rest replies : List ReadReply} {text : Bytes} (buf : Bytes)
    → Carries rest replies text
    → All IsLineByte text
    → length buf + length text ≤ limit
    → read_loop limit replies buf ≡ read_loop limit rest (buf ++ text)
unfolding read_loop
line_bytes_read limit {rest} buf done all h = ap (read_loop limit rest) (sym (append-nil buf))
line_bytes_read limit {rest} buf (byte {replies} {ch} {text} c) (keeps, all) h =
    rw (room limit buf text h, keeps)
      (line_bytes_read limit (buf ++ ch ∷ []) c all (omega (arith, length-append buf (ch ∷ [])))
        ∙ ap (read_loop limit rest) (append_assoc buf (ch ∷ []) text))
line_bytes_read limit {rest} buf (pause {replies} {ch} {text} c) all h =
    rw (room limit buf text h) (line_bytes_read limit buf c all h)

-- Line ends in front of a line are passed over.
LineEnds-skipped :
    (limit : ℕ) {rest replies : List ReadReply} {ends : Bytes}
    → Carries rest replies ends
    → LineEnds ends
    → 0 < limit
    → read_loop limit replies [] ≡ read_loop limit rest []
unfolding read_loop
LineEnds-skipped limit done all h = refl
LineEnds-skipped limit (byte c) (e, all) h =
    rw (room limit [] [] (omega arith), e) (LineEnds-skipped limit c all h)
LineEnds-skipped limit (pause c) all h =
    rw (room limit [] [] (omega arith)) (LineEnds-skipped limit c all h)

-- Behind a line, either the buffer is full or the first line end is taken.
line_returned :
    (limit : ℕ) {rest replies : List ReadReply} {ends : Bytes} (buf : Bytes)
    → Carries rest replies ends
    → LineEnds ends
    → is_empty ends ≡ false
    → is_empty buf ≡ false
    → (left : List ReadReply) × (ends' : Bytes) × (read_loop limit replies buf ≡ (line buf, left))
      × Carries rest left ends'
      × LineEnds ends'
unfolding read_loop
line_returned limit buf done all some_end some_byte = cc
line_returned limit {rest} buf (byte {replies} {ch} {text} c) (e, all) some_end some_byte =
    elim (Bool-cases (leb limit (length buf))) [
      | inl full ↦ (received ch ∷ replies, ch ∷ text, rw (full, some_byte) refl, byte c, (e, all))
      | inr left_room ↦ (replies, text, rw (left_room, e, some_byte) refl, c, all)
    ]
line_returned limit {rest} buf (pause {replies} {ch} {text} c) all some_end some_byte =
    elim (Bool-cases (leb limit (length buf))) [
      | inl full ↦ (interrupted ∷ replies, ch ∷ text, rw (full, some_byte) refl, pause c, all)
      | inr left_room ↦
          let (left, ends', e, c', all') = line_returned limit buf c all some_end some_byte in
          (left, ends', rw left_room e, c', all')
    ]

-- Calls one after the other.
abbrev pub reads : SerialPort → ℕ → ℕ → List ReadReply → List ReadResult
reads port buf_size zero replies = []
reads port buf_size (suc n) replies =
    let (result, left) = data_source_read port buf_size replies in
    result ∷ reads port buf_size n left

read_open :
    (port : SerialPort) (buf_size : ℕ) (replies : List ReadReply) (fd : ℕ)
    → port.serial_fd ≡ some fd
    → 1 < buf_size
    → data_source_read port buf_size replies ≡ read_loop (buf_size - 1) replies []
unfolding data_source_read read_from
read_open port buf_size replies fd e h = rw (e, read_from) (ground arith)

Carries-append :
    {rest mid replies : List ReadReply} {a b : Bytes}
    → Carries mid replies a
    → Carries rest mid b
    → Carries rest replies (a ++ b)
Carries-append done d = d
Carries-append (byte c) d = byte (Carries-append c d)
Carries-append (pause c) d = pause (Carries-append c d)

positive : {limit : ℕ} (c : Chunk) → IsChunk limit c → 0 < limit
positive {limit} c v = omega (arith, some_length c.text v.some_byte, v.short)
  where
    some_length : (t : Bytes) → is_empty t ≡ false → 1 ≤ length t
    some_length [] e = cc
    some_length (ch ∷ t) e = omega arith

-- One line, with line ends in front of it that an earlier call has left.
read_chunk :
    (limit : ℕ) {rest replies : List ReadReply} (before : Bytes) (c : Chunk) (more : Bytes)
    → LineEnds before
    → IsChunk limit c
    → Carries rest replies (before ++ (c.text ++ (c.ends ++ more)))
    → (left : List ReadReply) × (after : Bytes) × (read_loop limit replies [] ≡ (line c.text, left))
      × Carries rest left (after ++ more)
      × LineEnds after
read_chunk limit {rest} {replies} before c more all v r =
    let (mid1, r1, r') = split_replies before (c.text ++ (c.ends ++ more)) refl r in
    let (mid2, r2, r'') = split_replies c.text (c.ends ++ more) refl r' in
    let (mid3, r3, r4) = split_replies c.ends more refl r'' in
    let (left, after, e, r5, all') =
      line_returned limit c.text r3 v.line_ends v.some_end v.some_byte in
    (
      left,
      after,
      LineEnds-skipped limit r1 all (positive c v)
          ∙ (line_bytes_read limit [] r2 v.line_bytes (omega (arith, v.short)) ∙ e),
      Carries-append r5 r4,
      all',
    )

-- From a stream of lines that fit the buffer, each with line ends behind it (`\n`, `\r\n` or
-- others), as many calls return exactly these lines, in their order, however often `read` is
-- interrupted and whatever line ends stand at the front, also where a line fills the buffer.
pub reads-lines_of :
    (port : SerialPort) (buf_size fd : ℕ) {rest : List ReadReply} (replies : List ReadReply)
    (before : Bytes) (cs : List Chunk)
    → port.serial_fd ≡ some fd
    → LineEnds before
    → All (IsChunk (buf_size - 1)) cs
    → Carries rest replies (before ++ joined cs)
    → reads port buf_size (length cs) replies ≡ lines_of cs
reads-lines_of port buf_size fd replies before [] e all vs r = refl
reads-lines_of port buf_size fd replies before (c ∷ cs) e all (v, vs) r =
    let (left, after, e', r', all') = read_chunk (buf_size - 1) before c (joined cs) all v r in
    let here : data_source_read port buf_size replies ≡ (line c.text, left) =
      read_open port buf_size replies fd e (omega (arith, positive c v)) ∙ e' in
    rw here (ap (◌∷◌ (line c.text)) (reads-lines_of port buf_size fd left after cs e all' vs r'))
