-- ===== src/HandBridge/AckParser.antt =====
-- ros2_ws/src/hand_bridge/src/ack_parser.cpp: one line of the device, `ACK:<seq> <STATUS>`.
-- A `char` outside ASCII is a byte above 127 here; it is no digit and no space either way.
pub mod Digits
pub mod Accepts
use linux_iot_gateway.Common.Decimal.{is_digit}
use linux_iot_gateway.Common.{
  ℕ, ◌+◌, ◌-◌, ◌*◌, ◌/◌, ◌%◌, ◌^◌, Bool, true, false, ◌&&◌, [], ◌∷◌, Option, none, some, Bytes,
  codes, ltb, leb, ◌==◌, if◌then◌else◌, list_eq, take, drop,
}
use mathlib.Core.List.{reverse}

pub data AckStatus : Type 0 where
  in_progress ok preempted busy error : AckStatus

abbrev pub max_seq : ℕ
max_seq = 2 ^ 32 - 1

-- `text.back() == c ? text.pop_back()`, on the text read from its end.
abbrev pop_back : ℕ → Bytes → Option Bytes
pop_back c [] = none
pop_back c (x ∷ xs) = if x == c then some xs else none

-- A newline goes, and then a carriage return before it.
unfoldable pub strip_line_end : Bytes → Bytes
strip_line_end line = elim (pop_back b'\n' (reverse line)) [
  | none ↦ line
  | some text ↦ elim (pop_back b'\r' text) [ none ↦ reverse text | some rest ↦ reverse rest ]
]

-- The digit loop from `parsed_seq`: the number read and the text behind it, `none` on overflow.
-- The source computes `parsed_seq * 10U + digit` in 32 bits.
unfoldable pub scan_seq : ℕ → Bool → Bytes → Option (ℕ × Bool × Bytes)
scan_seq seq has_digit [] = some (seq, has_digit, [])
scan_seq seq has_digit (c ∷ text) =
    let digit = c - b'0' in
    let rest = scan_seq ((seq * 10 + digit) % 2 ^ 32) true text in
    if is_digit c
    then if ltb ((max_seq - digit) / 10) seq then none else rest
    else some (seq, has_digit, c ∷ text)

-- The chain of comparisons of `status_text`.
unfoldable pub parse_status : Bytes → Option AckStatus
parse_status text =
    if list_eq text (codes "IN_PROGRESS")
    then some in_progress
    else if list_eq text (codes "OK")
    then some ok
    else if list_eq text (codes "PREEMPTED")
    then some preempted
    else if list_eq text (codes "BUSY")
    then some busy
    else if list_eq text (codes "ERROR")
    then some error
    else none

-- What stands behind the digits: one space and the status.
unfoldable pub parse_tail : ℕ × Bool × Bytes → Option (ℕ × AckStatus)
unfolding parse_status
parse_tail (seq, false, text) = none
parse_tail (seq, true, []) = none
parse_tail (seq, true, c ∷ text) =
    if c == b' '
    then elim (parse_status text) [ none ↦ none | some status ↦ some (seq, status) ]
    else none

-- The prefix, the digits and the rest, of a line without its end.
unfoldable pub parse_text : Bytes → Option (ℕ × AckStatus)
parse_text text =
    if list_eq (take 4 text) (codes "ACK:")
    then elim (scan_seq 0 false (drop 4 text)) [ none ↦ none | some found ↦ parse_tail found ]
    else none

-- `false` is `none`; on success the two references are written.
unfoldable pub parse_ack : Bytes → Option (ℕ × AckStatus)
parse_ack line = parse_text (strip_line_end line)

unfoldable pub ack_status_to_string : AckStatus → Bytes
ack_status_to_string in_progress = codes "IN_PROGRESS"
ack_status_to_string ok = codes "OK"
ack_status_to_string preempted = codes "PREEMPTED"
ack_status_to_string busy = codes "BUSY"
ack_status_to_string error = codes "ERROR"
