-- ===== src/ThreadSafeQueue/Progress.antt =====
-- Rounds in which both threads have a turn, and the turns that are left.
use linux_iot_gateway.Common.{
  ℕ, zero, suc, ◌+◌, ◌*◌, ◌<◌, ◌⊎◌, Bool, true, false, List, [], ◌∷◌, ◌≡◌, refl, ap, ◌∙◌, arith,
  sym, subst, if◌then◌else◌, length, length-append, Bool-cases, inl, inr,
}
use linux_iot_gateway.ThreadSafeQueue.{waiting, closed, push, pop_front, wait_and_pop, stop}
use linux_iot_gateway.ThreadSafeQueue.Threads.{
  Client, Producer, Consumer, Machine, Turn, producer_turn, consumer_turn, producer_step, popped,
  consumer_step, step, run, new_machine, pushes, has_pushed, pops, holds,
}
use linux_iot_gateway.ThreadSafeQueue.Order.{StopFits, Observes, in_turn, ended-consumed}

abbrev producer_weight : {T : Type 0} → Producer T → ℕ
producer_weight (pushes items) = 4 * length items + 2
producer_weight (has_pushed item items) = 4 * length items + 3
producer_weight Producer.leaves = 1
producer_weight Producer.ended = 0

abbrev consumer_weight : {T : Type 0} → Consumer T → ℕ
consumer_weight pops = 2
consumer_weight (holds item) = 3
consumer_weight Consumer.leaves = 1
consumer_weight Consumer.ended = 0

abbrev pub rounds : ℕ → List Turn
rounds zero = []
rounds (suc n) = producer_turn ∷ consumer_turn ∷ rounds n

module _ {T S : Type 0} (client : Client T S) where
  -- The turns that are left at most.
  abbrev weight : Machine T S → ℕ
  weight m = producer_weight m.producer + 2 * length m.buffer.queue + consumer_weight m.consumer

  -- A turn does something, or changes nothing.
  abbrev Moves : Type 0 → Machine T S → Machine T S → Type 0
  Moves Still m m' = (weight m' < weight m) ⊎ ((m' ≡ m) × Still)

  producer-moves :
      (m : Machine T S) (p : Producer T)
      → m.producer ≡ p
      → Moves (p ≡ Producer.ended) m (producer_step client p m)
  unfolding producer_step push stop
  producer-moves m (pushes (item ∷ items)) e =
      inl (omega (arith, ap producer_weight e, length-append m.buffer.queue (item ∷ [])))
  producer-moves m (pushes []) e = inl (omega (arith, ap producer_weight e))
  producer-moves m (has_pushed item items) e = inl (omega (arith, ap producer_weight e))
  producer-moves m Producer.leaves e = inl (omega (arith, ap producer_weight e))
  producer-moves m Producer.ended e = inr (refl, refl)

  -- Why a turn of the consumer may change nothing.
  abbrev Waits : Consumer T → Machine T S → Type 0
  Waits c m = (c ≡ Consumer.ended) ⊎ (m.buffer.stopped ≡ false)

  pop-moves :
      (queue : List T) (m : Machine T S)
      → m.buffer.queue ≡ queue
      → m.consumer ≡ pops
      → Moves (Waits pops m) m (popped client (pop_front queue m.buffer) m)
  unfolding popped pop_front
  pop-moves [] m q e = by_flag m.buffer.stopped refl
    where
      by_flag :
          (flag : Bool)
          → m.buffer.stopped ≡ flag
          → Moves (Waits pops m) m (popped client (m.buffer, if flag then closed else waiting) m)
      by_flag true f = inl (omega (arith, ap consumer_weight e))
      by_flag false f = inr (refl, inr f)
  pop-moves (item ∷ rest) m q e = inl (omega (arith, ap consumer_weight e, ap length q))

  consumer-moves :
      (m : Machine T S) (c : Consumer T)
      → m.consumer ≡ c
      → Moves (Waits c m) m (consumer_step client c m)
  unfolding consumer_step wait_and_pop
  consumer-moves m pops e = pop-moves m.buffer.queue m refl e
  consumer-moves m (holds item) e = inl (omega (arith, ap consumer_weight e))
  consumer-moves m Consumer.leaves e = inl (omega (arith, ap consumer_weight e))
  consumer-moves m Consumer.ended e = inr (refl, inl refl)

  -- The queue is open only while the producer still has something to do.
  abbrev Fits : Machine T S → Type 0
  Fits m = StopFits m.producer m.buffer.stopped

  producer-Fits :
      (p : Producer T) (m : Machine T S)
      → StopFits p m.buffer.stopped
      → Fits m
      → Fits (producer_step client p m)
  unfolding producer_step push stop
  producer-Fits (pushes (item ∷ items)) m h w = h
  producer-Fits (pushes []) m h w = refl
  producer-Fits (has_pushed item items) m h w = h
  producer-Fits Producer.leaves m h w = h
  producer-Fits Producer.ended m h w = w

  pop-Fits :
      (queue : List T) (m : Machine T S)
      → Fits m
      → Fits (popped client (pop_front queue m.buffer) m)
  unfolding popped pop_front
  pop-Fits [] m h = elim (Bool-cases m.buffer.stopped) [
    | inl set ↦
        subst (λ b. Fits (popped client (m.buffer, if b then closed else waiting) m)) (sym set) h
    | inr unset ↦
        subst (λ b. Fits (popped client (m.buffer, if b then closed else waiting) m)) (sym unset) h
  ]
  pop-Fits (item ∷ rest) m h = h

  consumer-Fits : (c : Consumer T) (m : Machine T S) → Fits m → Fits (consumer_step client c m)
  unfolding consumer_step wait_and_pop
  consumer-Fits pops m h = pop-Fits m.buffer.queue m h
  consumer-Fits (holds item) m h = h
  consumer-Fits Consumer.leaves m h = h
  consumer-Fits Consumer.ended m h = h

  ended_stops : (p : Producer T) (b : Bool) → StopFits p b → p ≡ Producer.ended → b ≡ true
  ended_stops (pushes items) b h e = cc
  ended_stops (has_pushed item items) b h e = cc
  ended_stops Producer.leaves b h e = h
  ended_stops Producer.ended b h e = h

  -- One turn for each thread.
  abbrev pub one_round : Machine T S → Machine T S
  one_round m = step client (step client m producer_turn) consumer_turn

  -- The two threads have ended.
  abbrev pub Ended : Machine T S → Type 0
  Ended m = (m.producer ≡ Producer.ended) × (m.consumer ≡ Consumer.ended)

  producer_part :
      (m : Machine T S) → Moves (m.producer ≡ Producer.ended) m (step client m producer_turn)
  unfolding step
  producer_part m = producer-moves m m.producer refl

  consumer_part : (m : Machine T S) → Moves (Waits m.consumer m) m (step client m consumer_turn)
  unfolding step
  consumer_part m = consumer-moves m m.consumer refl

  round-Fits : (m : Machine T S) → Fits m → Fits (one_round m)
  unfolding step
  round-Fits m h =
      let h' = producer-Fits m.producer m h h in
      consumer-Fits (producer_step client m.producer m).consumer (producer_step client m.producer m)
        h'

  -- A round does something, or both threads have ended.
  round-moves : (m : Machine T S) → Fits m → Moves (Ended m) m (one_round m)
  round-moves m h = elim (producer_part m) [
    | inl less ↦ elim (consumer_part (step client m producer_turn)) [
      | inl less' ↦ inl (omega arith)
      | inr (same, why) ↦ inl (omega (arith, ap weight same))
    ]
    | inr (same, ended) ↦ elim (consumer_part (step client m producer_turn)) [
      | inl less ↦ inl (omega (arith, ap weight same))
      | inr (same', why) ↦ elim (subst (λ m'. Waits m'.consumer m') same why) [
        | inl ended' ↦ inr (same' ∙ same, (ended, ended'))
        | inr opened ↦ absurd (let flag = ended_stops m.producer m.buffer.stopped h ended in cc)
      ]
    ]
  ]

  Ended-one_round : (m : Machine T S) → Ended m → one_round m ≡ m
  unfolding step producer_step consumer_step
  Ended-one_round m (e, e') =
      let first : producer_step client m.producer m ≡ m = ap (λ p. producer_step client p m) e in
      ap (λ (m' : Machine T S). consumer_step client m'.consumer m') first
      ∙ ap (λ c. consumer_step client c m) e'

  rounds_keep_ends : (n : ℕ) (m : Machine T S) → Ended m → Ended (run client m (rounds n))
  rounds_keep_ends zero m e = e
  rounds_keep_ends (suc n) m e =
      rounds_keep_ends n (one_round m) (subst Ended (sym (Ended-one_round m e)) e)

  rounds_end : (n : ℕ) (m : Machine T S) → Fits m → weight m < n → Ended (run client m (rounds n))
  rounds_end zero m h less = absurd (omega arith)
  rounds_end (suc n) m h less = elim (round-moves m h) [
    | inl fewer ↦ rounds_end n (one_round m) (round-Fits m h) (omega arith)
    | inr (same, ended) ↦ rounds_keep_ends n (one_round m) (subst Ended (sym same) ended)
  ]

-- After four rounds for each item and five more, in each of which both threads have a turn, both
-- have ended.
pub rounds-Ended :
    {T S : Type 0} (client : Client T S) (items : List T) (s : S)
    → Ended client (run client (new_machine items s) (rounds (4 * length items + 5)))
unfolding new_machine
rounds-Ended client items s =
    rounds_end client (4 * length items + 5) (new_machine items s) refl (omega arith)

-- After that many rounds both threads have ended, and what shows of the shared state is what the
-- items make of it, one after the other in the order of the pushes.
pub rounds-consumed :
    {T S V : Type 0} (client : Client T S) (view : S → V) (advance : T → V → V)
    → Observes client view advance
    → (items : List T) (s : S)
    → let m = run client (new_machine items s) (rounds (4 * length items + 5)) in
      Ended client m × (view m.shared ≡ in_turn advance items (view s))
rounds-consumed client view advance laws items s =
    let ended = rounds-Ended client items s in
    (ended, ended-consumed client view advance laws items s (rounds (4 * length items + 5)) ended.1)
