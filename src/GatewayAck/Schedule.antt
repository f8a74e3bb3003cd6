-- ===== src/GatewayAck/Schedule.antt =====
-- The turns of the two threads, and what each input is due, from its own text.
use linux_iot_gateway.Common.{
  ℕ, suc, ◌+◌, ◌%◌, ◌^◌, Bool, List, [], ◌∷◌, ◌++◌, ◌≡◌, refl, ap, arith, Bytes, codes,
  if◌then◌else◌,
}
use linux_iot_gateway.ProtocolParser
use linux_iot_gateway.GatewayAck.{
  RawCommand, Producer, Consumer, Gateway, print_result, rejected_result, accepted_result,
  producer_step, consumer_step,
}

-- The threads take turns in any order.
pub data Turn : Type 0 where
  producer_turn consumer_turn : Turn

unfoldable pub step : Gateway → Turn → Gateway
step g producer_turn = producer_step g.producer g
step g consumer_turn = consumer_step g.consumer g

abbrev pub run : Gateway → List Turn → Gateway
run g [] = g
run g (t ∷ ts) = run (step g t) ts

-- The inputs with their numbers.
abbrev pub numbered : ℕ → List Bytes → List RawCommand
numbered s [] = []
numbered s (payload ∷ rest) =
    let sequence = (s + 1) % 2 ^ 32 in
    record { sequence = sequence; source = codes "SIMULATED_UART"; payload = payload }
    ∷ numbered sequence rest

abbrev pub is_accepted : RawCommand → Bool
is_accepted c = ProtocolParser.is_valid (ProtocolParser.parse c.payload)

-- What is printed for a command, from its input alone.
abbrev pub answer_to : RawCommand → Bytes
answer_to c = print_result (
    if is_accepted c then accepted_result c (ProtocolParser.parse c.payload) else rejected_result c)

abbrev pub answers_to : List RawCommand → List Bytes
answers_to [] = []
answers_to (c ∷ cs) = answer_to c ∷ answers_to cs

abbrev pub accepted_in : List RawCommand → ℕ
accepted_in [] = 0
accepted_in (c ∷ cs) = if is_accepted c then suc (accepted_in cs) else accepted_in cs

pub answers_to-append :
    (cs : List RawCommand) (c : RawCommand)
    → answers_to (cs ++ c ∷ []) ≡ answers_to cs ++ answer_to c ∷ []
answers_to-append [] c = refl
answers_to-append (d ∷ cs) c = ap (◌∷◌ (answer_to d)) (answers_to-append cs c)

pub accepted_in-append :
    (cs : List RawCommand) (c : RawCommand)
    → accepted_in (cs ++ c ∷ []) ≡ (if is_accepted c then suc (accepted_in cs) else accepted_in cs)
accepted_in-append [] c = refl
accepted_in-append (d ∷ cs) c = ground (arith, accepted_in-append cs c)

abbrev pub inputs_left : Producer → List Bytes
inputs_left (Producer.sends inputs) = inputs
inputs_left (Producer.logs_queued inputs) = inputs
inputs_left _ = []

abbrev pub held : Consumer → List RawCommand
held (Consumer.holds c) = c ∷ []
held _ = []
