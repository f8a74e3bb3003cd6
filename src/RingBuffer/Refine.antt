-- ===== src/RingBuffer/Refine.antt =====
-- The ring as the queue of the bytes from its tail to its head.
use linux_iot_gateway.Common.{
  ℕ, zero, suc, ◌+◌, ◌-◌, ◌%◌, ◌≤◌, ◌<◌, Bool, true, false, List, [], ◌∷◌, ◌++◌, none, some, Bytes,
  ◌==◌, get_or, set, length, length-append, length-set, get_or-set_self, get_or-set_ne, ◌≡◌, refl,
  sym, ap, ap₂, ◌∙◌, arith, Bool-cases, inl, inr,
}
use linux_iot_gateway.RingBuffer.{
  Ring, new_ring, ring_buffer_push, ring_buffer_pop, ring_buffer_full, ring_buffer_empty, Call,
  Answer, push, pop, pushed, popped, call, answers,
}
use linux_iot_gateway.RingBuffer.Queue.{queue_call, queue_answers}

-- The n bytes from a place on, going round behind the last.
abbrev pub cells : Bytes → ℕ → ℕ → Bytes
cells buffer place zero = []
cells buffer place (suc n) = cells buffer place n ++ get_or buffer ((place + n) % 8) 0 ∷ []

abbrev pub occupied : Ring → ℕ
occupied r = (r.head + 8 - r.tail) % 8

abbrev pub contents : Ring → Bytes
contents r = cells r.buffer r.tail (occupied r)

pub record IsValid (r : Ring) : Type 0 where
  pub storage : length r.buffer ≡ 8
  pub head_in : r.head < 8
  pub tail_in : r.tail < 8

length-cells : (buffer : Bytes) (place n : ℕ) → length (cells buffer place n) ≡ n
length-cells buffer place zero = refl
length-cells buffer place (suc n) = omega (
  arith,
  length-cells buffer place n,
  length-append (cells buffer place n) (get_or buffer ((place + n) % 8) 0 ∷ []),
)

-- A write outside the window leaves it.
cells-set :
    (buffer : Bytes) (value place at n : ℕ)
    → place < 8
    → at < 8
    → n ≤ (at + 8 - place) % 8
    → cells (set buffer at value) place n ≡ cells buffer place n
cells-set buffer value place at zero p a h = refl
cells-set buffer value place at (suc n) p a h =
    ap₂ (λ front last. front ++ last ∷ []) (cells-set buffer value place at n p a (omega arith))
      (get_or-set_ne buffer at ((place + n) % 8) value 0 (omega arith))

-- The first byte of a window, and the window behind it.
cells-first :
    (buffer : Bytes) (place n : ℕ)
    → cells buffer place (suc n) ≡ get_or buffer (place % 8) 0 ∷ cells buffer ((place + 1) % 8) n
cells-first buffer place zero = ap (λ i. get_or buffer (i % 8) 0 ∷ []) (omega arith)
cells-first buffer place (suc n) =
    ap₂ (λ front i. front ++ get_or buffer i 0 ∷ []) (cells-first buffer place n) (omega arith)

full_iff : (r : Ring) → IsValid r → ring_buffer_full r ≡ (length (contents r) == 7)
unfolding ring_buffer_full
full_iff r v = ground (arith, length-cells r.buffer r.tail (occupied r))

-- A call leaves the ring valid, and its answer and what the ring then holds are the queue's.
abbrev pub Refines : Ring → Call → Type 0
Refines r c =
    let (r', answer) = call c r in IsValid r' × ((contents r', answer) ≡ queue_call c (contents r))

stored :
    (value : ℕ) (r : Ring)
    → IsValid r
    → occupied r < 7
    → cells (set r.buffer r.head value) r.tail (occupied r)
        ++ get_or (set r.buffer r.head value) ((r.tail + occupied r) % 8) 0 ∷ []
      ≡ contents r ++ value ∷ []
stored value r v h =
    ap₂ (λ front last. front ++ last ∷ [])
      (cells-set r.buffer value r.tail r.head (occupied r) v.tail_in v.head_in (omega arith))
      (ap (λ i. get_or (set r.buffer r.head value) i 0) here
        ∙ get_or-set_self r.buffer r.head value 0 (omega (arith, v)))
  where
    here : (r.tail + occupied r) % 8 ≡ r.head
    here = omega (arith, v)

push-Refines : (value : ℕ) (r : Ring) → IsValid r → Refines r (push value)
unfolding call ring_buffer_push
push-Refines value r v = elim (Bool-cases (ring_buffer_full r)) [
  | inl full ↦ rw (full, sym (full_iff r v) ∙ full) (v, refl)
  | inr room ↦
      rw (room, sym (full_iff r v) ∙ room)
        (
          record {
            storage = length-set r.buffer r.head value ∙ v.storage;
            head_in = omega arith;
            tail_in = v.tail_in;
          },
          ap (λ all. (all, pushed true))
              (ap (cells (set r.buffer r.head value) r.tail) (grows (below room))
                ∙ stored value r v (below room)),
        )
]
  where
    below : ring_buffer_full r ≡ false → occupied r < 7
    below room = ground (arith, v, full_iff r v, length-cells r.buffer r.tail (occupied r))

    grows : occupied r < 7 → ((r.head + 1) % 8 + 8 - r.tail) % 8 ≡ suc (occupied r)
    grows h = omega (arith, v)

-- With a byte to pop.
pop_some :
    (r : Ring) (n : ℕ)
    → IsValid r
    → occupied r ≡ suc n
    → ((
      cells r.buffer ((r.tail + 1) % 8) ((r.head + 8 - (r.tail + 1) % 8) % 8),
      popped (some (get_or r.buffer r.tail 0)),
    )
        ≡ queue_call (pop false) (contents r))
pop_some r n v e =
    ap (λ k. (cells r.buffer ((r.tail + 1) % 8) k, popped (some (get_or r.buffer r.tail 0)))) fewer
    ∙ ap (λ i. (cells r.buffer ((r.tail + 1) % 8) n, popped (some (get_or r.buffer i 0)))) whole
    ∙ sym
        (ap (queue_call (pop false)) (ap (cells r.buffer r.tail) e ∙ cells-first r.buffer r.tail n))
  where
    fewer : (r.head + 8 - (r.tail + 1) % 8) % 8 ≡ n
    fewer = omega (arith, v, e)

    whole : r.tail ≡ r.tail % 8
    whole = omega (arith, v)

pop_none :
    (r : Ring) → occupied r ≡ 0 → ((contents r, popped none) ≡ queue_call (pop false) (contents r))
pop_none r e =
    let nothing : contents r ≡ [] = ap (cells r.buffer r.tail) e in
    ap (λ queue. (queue, popped none)) nothing ∙ sym (ap (queue_call (pop false)) nothing)

pop-Refines : (is_null : Bool) (r : Ring) → IsValid r → Refines r (pop is_null)
unfolding call ring_buffer_pop ring_buffer_empty
pop-Refines true r v = (v, refl)
pop-Refines false r v = elim (Bool-cases (r.head == r.tail)) [
  | inl same ↦ rw same (v, pop_none r (ground arith))
  | inr other ↦ rw other (
    record { storage = v.storage; head_in = v.head_in; tail_in = omega arith },
    pop_some r (occupied r - 1) v (ground arith),
  )
]

call-Refines : (c : Call) (r : Ring) → IsValid r → Refines r c
call-Refines (push value) r v = push-Refines value r v
call-Refines (pop is_null) r v = pop-Refines is_null r v

answers_of_valid :
    (cs : List Call) (r : Ring) → IsValid r → answers cs r ≡ queue_answers cs (contents r)
answers_of_valid [] r v = refl
answers_of_valid (c ∷ cs) r v =
    let (v', e) = call-Refines c r v in
    ap (λ t. (call c r).1 ∷ t) (answers_of_valid cs (call c r).0 v')
    ∙ ap (λ (p : Bytes × Answer). p.1 ∷ queue_answers cs p.0) e

-- Whatever calls of push and pop a client makes, also with a NULL pointer, the ring answers as a
-- queue of at most seven bytes does: a push is refused exactly when seven bytes are held, and the
-- bytes come back in the order in which they were put in.
pub answers-queue_answers : (cs : List Call) → answers cs new_ring ≡ queue_answers cs []
answers-queue_answers cs =
    answers_of_valid cs new_ring
      (record { storage = refl; head_in = omega arith; tail_in = omega arith })
