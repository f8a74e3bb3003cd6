-- ===== src/GatewayAck/Progress.antt =====
-- Rounds in which both threads have a turn, and the turns that are left.
use linux_iot_gateway.Common.{
  ℕ, zero, suc, ◌+◌, ◌*◌, ◌<◌, ◌⊎◌, Bool, true, false, List, [], ◌∷◌, ◌≡◌, refl, ap, ◌∙◌, arith,
  Bytes, if◌then◌else◌, length, length-append, Bool-cases, inl, inr,
}
use linux_iot_gateway.ProtocolParser
use linux_iot_gateway.LogManager.{LogManager}
use linux_iot_gateway.GatewayAck.{
  RawCommand, Producer, Consumer, Gateway, push_next, producer_step, take_next, handle,
  consumer_step, new_gateway,
}
use linux_iot_gateway.GatewayAck.Schedule.{
  Turn, producer_turn, consumer_turn, step, run, numbered, answers_to,
}
use linux_iot_gateway.GatewayAck.Order.{FlagFits, IsOrdered}
use linux_iot_gateway.GatewayAck.Answers.{step-IsOrdered, new_gateway-IsOrdered, run-answers_to}

abbrev producer_weight : Producer → ℕ
producer_weight (Producer.sends inputs) = 4 * length inputs + 2
producer_weight (Producer.logs_queued inputs) = 4 * length inputs + 3
producer_weight Producer.logs_finished = 1
producer_weight Producer.ended = 0

abbrev consumer_weight : Consumer → ℕ
consumer_weight Consumer.waits = 2
consumer_weight (Consumer.holds c) = 3
consumer_weight Consumer.logs_finished = 1
consumer_weight Consumer.ended = 0

-- The turns that are left at most.
abbrev weight : Gateway → ℕ
weight g = producer_weight g.producer + 2 * length g.command_queue + consumer_weight g.consumer

producer-weight :
    (g : Gateway) (p : Producer)
    → g.producer ≡ p
    → (weight (producer_step p g) < weight g) ⊎ ((p ≡ Producer.ended) × (producer_step p g ≡ g))
unfolding producer_step push_next
producer-weight g (Producer.sends (payload ∷ rest)) e =
    inl (omega (arith, ap producer_weight e, length-append g.command_queue _))
producer-weight g (Producer.sends []) e = inl (omega (arith, ap producer_weight e))
producer-weight g (Producer.logs_queued rest) e = inl (omega (arith, ap producer_weight e))
producer-weight g Producer.logs_finished e = inl (omega (arith, ap producer_weight e))
producer-weight g Producer.ended e = inr (refl, refl)

handle-weight :
    (g : Gateway) (c : RawCommand) → g.consumer ≡ Consumer.holds c → weight (handle c g) < weight g
unfolding handle
handle-weight g c e = elim (Bool-cases (ProtocolParser.is_valid (ProtocolParser.parse c.payload))) [
  | inl good ↦ rw good (omega (arith, ap consumer_weight e))
  | inr bad ↦ rw bad (omega (arith, ap consumer_weight e))
]

take-weight :
    (g : Gateway) (queue : List RawCommand)
    → g.consumer ≡ Consumer.waits
    → g.command_queue ≡ queue
    → (weight (take_next queue g) < weight g)
      ⊎ ((g.input_finished ≡ false) × (take_next queue g ≡ g))
unfolding take_next
take-weight g [] e q = by_flag g.input_finished refl
  where
    by_flag :
        (flag : Bool)
        → g.input_finished ≡ flag
        → let g' = if flag then record g { consumer = Consumer.logs_finished } else g in
          (weight g' < weight g) ⊎ ((g.input_finished ≡ false) × (g' ≡ g))
    by_flag true f = inl (omega (arith, ap consumer_weight e))
    by_flag false f = inr (f, refl)
take-weight g (c ∷ rest) e q = inl (omega (arith, ap consumer_weight e, ap length q))

consumer-weight :
    (g : Gateway) (c : Consumer)
    → g.consumer ≡ c
    → (weight (consumer_step c g) < weight g)
      ⊎ ((c ≡ Consumer.ended) × (consumer_step c g ≡ g))
      ⊎ ((g.input_finished ≡ false) × (consumer_step c g ≡ g))
unfolding consumer_step
consumer-weight g Consumer.waits e = elim (take-weight g g.command_queue e refl) [
  | inl less ↦ inl less
  | inr still ↦ inr (inr still)
]
consumer-weight g (Consumer.holds c) e = inl (handle-weight g c e)
consumer-weight g Consumer.logs_finished e = inl (omega (arith, ap consumer_weight e))
consumer-weight g Consumer.ended e = inr (inl (refl, refl))

-- One turn for each thread.
abbrev one_round : Gateway → Gateway
one_round g = step (step g producer_turn) consumer_turn

producer_turn-weight :
    (g : Gateway)
    → (weight (step g producer_turn) < weight g)
      ⊎ ((g.producer ≡ Producer.ended) × (step g producer_turn ≡ g))
unfolding step
producer_turn-weight g = producer-weight g g.producer refl

consumer_turn-weight :
    (g : Gateway)
    → (weight (step g consumer_turn) < weight g)
      ⊎ ((g.consumer ≡ Consumer.ended) × (step g consumer_turn ≡ g))
      ⊎ ((g.input_finished ≡ false) × (step g consumer_turn ≡ g))
unfolding step
consumer_turn-weight g = consumer-weight g g.consumer refl

ended_sets_flag : (p : Producer) (flag : Bool) → FlagFits p flag → p ≡ Producer.ended → flag ≡ true
ended_sets_flag (Producer.sends inputs) flag h e = cc
ended_sets_flag (Producer.logs_queued inputs) flag h e = cc
ended_sets_flag Producer.logs_finished flag h e = h
ended_sets_flag Producer.ended flag h e = h

-- The producer's turn moves, or it has ended and the flag is set.
producer_turn_moves :
    (all : List RawCommand) (g : Gateway)
    → IsOrdered all g
    → (weight (step g producer_turn) < weight g)
      ⊎ ((weight (step g producer_turn) ≡ weight g)
          × ((step g producer_turn).input_finished ≡ true))
producer_turn_moves all g v = elim (producer_turn-weight g) [
  | inl less ↦ inl less
  | inr (ended, same) ↦
      let flag = ended_sets_flag g.producer g.input_finished v.flag_fits ended in
      inr (ap weight same, ap (λ (h : Gateway). h.input_finished) same ∙ flag)
]

round-weight :
    (all : List RawCommand) (g : Gateway)
    → IsOrdered all g
    → (weight (one_round g) < weight g) ⊎ ((one_round g).consumer ≡ Consumer.ended)
round-weight all g v = elim (consumer_turn-weight (step g producer_turn)) [
  | inl less ↦ elim (producer_turn_moves all g v) [
    | inl less' ↦ inl (omega arith)
    | inr (same, flag) ↦ inl (omega arith)
  ]
  | inr (inl (ended, still)) ↦ inr (ap (λ (h : Gateway). h.consumer) still ∙ ended)
  | inr (inr (unset, still)) ↦ elim (producer_turn_moves all g v) [
    | inl less' ↦ inl (omega (arith, ap weight still))
    | inr (same, flag) ↦ cc
  ]
]

producer-consumer : (p : Producer) (g : Gateway) → (producer_step p g).consumer ≡ g.consumer
unfolding producer_step push_next
producer-consumer (Producer.sends (payload ∷ rest)) g = refl
producer-consumer (Producer.sends []) g = refl
producer-consumer (Producer.logs_queued rest) g = refl
producer-consumer Producer.logs_finished g = refl
producer-consumer Producer.ended g = refl

round_ended : (g : Gateway) → g.consumer ≡ Consumer.ended → (one_round g).consumer ≡ Consumer.ended
unfolding step consumer_step
round_ended g e =
    let still : (producer_step g.producer g).consumer ≡ Consumer.ended =
      producer-consumer g.producer g ∙ e in
    ap (λ (c : Consumer). (consumer_step c (producer_step g.producer g)).consumer) still ∙ still

abbrev pub rounds : ℕ → List Turn
rounds zero = []
rounds (suc n) = producer_turn ∷ consumer_turn ∷ rounds n

rounds_ended :
    (n : ℕ) (g : Gateway)
    → g.consumer ≡ Consumer.ended
    → (run g (rounds n)).consumer ≡ Consumer.ended
rounds_ended zero g e = e
rounds_ended (suc n) g e = rounds_ended n (one_round g) (round_ended g e)

rounds_end :
    (n : ℕ) (all : List RawCommand) (g : Gateway)
    → IsOrdered all g
    → weight g < n
    → (run g (rounds n)).consumer ≡ Consumer.ended
rounds_end zero all g v h = absurd (omega arith)
rounds_end (suc n) all g v h = elim (round-weight all g v) [
  | inl less ↦ rounds_end n all (one_round g) v' (omega arith)
  | inr ended ↦ rounds_ended n (one_round g) ended
]
  where
    v' : IsOrdered all (one_round g)
    v' =
        step-IsOrdered all (step g producer_turn) consumer_turn
          (step-IsOrdered all g producer_turn v)

new_gateway-weight :
    (logger : LogManager) (inputs : List Bytes)
    → weight (new_gateway logger inputs) ≡ 4 * length inputs + 4
unfolding new_gateway
new_gateway-weight logger inputs = omega arith

-- After four rounds for each input and five more, in each of which both threads have a turn, the
-- consumer has ended and every input has been answered, in order.
pub rounds-answers_to :
    (logger : LogManager) (inputs : List Bytes)
    → let g = run (new_gateway logger inputs) (rounds (4 * length inputs + 5)) in
      (g.consumer ≡ Consumer.ended) × (g.printed ≡ answers_to (numbered 0 inputs))
rounds-answers_to logger inputs =
    (ended, run-answers_to logger inputs (rounds (4 * length inputs + 5)) ended)
  where
    ended :
        (run (new_gateway logger inputs) (rounds (4 * length inputs + 5))).consumer ≡ Consumer.ended
    ended =
        rounds_end (4 * length inputs + 5) (numbered 0 inputs) (new_gateway logger inputs)
          (new_gateway-IsOrdered logger inputs) (omega (arith, new_gateway-weight logger inputs))
