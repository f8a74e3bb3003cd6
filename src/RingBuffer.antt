-- ===== src/RingBuffer.antt =====
-- practice/day02/ring_buffer.c: a ring of eight bytes in which one place stays free.
pub mod Queue
pub mod Refine
use linux_iot_gateway.Common.{
  ℕ, zero, suc, ◌+◌, ◌%◌, Bool, true, false, List, [], ◌∷◌, Option, none, some, Bytes, ◌==◌,
  if◌then◌else◌, get_or, set,
}

abbrev pub buffer_size : ℕ
buffer_size = 8

-- The three static variables.
pub record Ring : Type 0 where
  pub buffer : Bytes
  pub head : ℕ
  pub tail : ℕ

abbrev pub new_ring : Ring
new_ring = record { buffer = 0 ∷ 0 ∷ 0 ∷ 0 ∷ 0 ∷ 0 ∷ 0 ∷ 0 ∷ []; head = 0; tail = 0 }

unfoldable pub ring_buffer_empty : Ring → Bool
ring_buffer_empty r = r.head == r.tail

unfoldable pub ring_buffer_full : Ring → Bool
ring_buffer_full r = (r.head + 1) % buffer_size == r.tail

unfoldable pub ring_buffer_push : ℕ → Ring → Ring × Bool
unfolding ring_buffer_full
ring_buffer_push value r =
    if ring_buffer_full r
    then (r, false)
    else (record r { buffer = set r.buffer r.head value; head = (r.head + 1) % buffer_size }, true)

-- What is written through the pointer, if it is not NULL and the result is true.
unfoldable pub ring_buffer_pop : Bool → Ring → Ring × Option ℕ
unfolding ring_buffer_empty
ring_buffer_pop is_null r =
    if is_null
    then (r, none)
    else if ring_buffer_empty r
    then (r, none)
    else (record r { tail = (r.tail + 1) % buffer_size }, some (get_or r.buffer r.tail 0))

-- Calls of a client, in their order, and what they answer.
pub data Call : Type 0 where
  push : ℕ → Call
  pop : Bool → Call

pub data Answer : Type 0 where
  pushed : Bool → Answer
  popped : Option ℕ → Answer

unfoldable pub call : Call → Ring → Ring × Answer
unfolding ring_buffer_push ring_buffer_pop
call (push value) r = let (r', done) = ring_buffer_push value r in (r', pushed done)
call (pop is_null) r = let (r', value) = ring_buffer_pop is_null r in (r', popped value)

abbrev pub answers : List Call → Ring → List Answer
answers [] r = []
answers (c ∷ cs) r = let (r', answer) = call c r in answer ∷ answers cs r'
