-- ===== src/GatewayAck/Answers.antt =====
-- The turns of the consumer, and the order of the answers.
use linux_iot_gateway.Common.{
  suc, ◌+◌, Bool, true, false, List, [], ◌∷◌, ◌++◌, ◌≡◌, refl, ap, sym, ◌∙◌, arith, Bytes,
  if◌then◌else◌, length, length-append, append_assoc, append-nil, Bool-cases, inl, inr, subst,
}
use linux_iot_gateway.ProtocolParser
use linux_iot_gateway.LogManager.{LogManager}
use linux_iot_gateway.GatewayAck.{
  RawCommand, Producer, Consumer, Gateway, print_result, rejected_result, accepted_result,
  take_next, handle, consumer_step, new_gateway,
}
use linux_iot_gateway.GatewayAck.Schedule.{
  Turn, step, run, numbered, is_accepted, answers_to, accepted_in, answers_to-append,
  accepted_in-append, inputs_left, held, producer_turn, consumer_turn,
}
use linux_iot_gateway.GatewayAck.Order.{FlagFits, ClosedFits, IsOrdered, producer-IsOrdered}

held_at :
    {all : List RawCommand} (g : Gateway) (c : Consumer) (v : IsOrdered all g)
    → g.consumer ≡ c
    → (all
        ≡ v.answered
          ++ (held c ++ (g.command_queue ++ numbered g.sequence (inputs_left g.producer))))
      × (g.stats.received ≡ length v.answered + length (held c) + length g.command_queue)
      × ClosedFits c g.input_finished g.command_queue
held_at {all} g c v e =
    subst
      (λ c.
        (all
          ≡ v.answered
            ++ (held c ++ (g.command_queue ++ numbered g.sequence (inputs_left g.producer))))
        × (g.stats.received ≡ length v.answered + length (held c) + length g.command_queue)
        × ClosedFits c g.input_finished g.command_queue)
      e (v.splits, v.receives, v.closed_fits)

take-IsOrdered :
    (all : List RawCommand) (g : Gateway) (queue : List RawCommand)
    → g.consumer ≡ Consumer.waits
    → g.command_queue ≡ queue
    → IsOrdered all g
    → IsOrdered all (take_next queue g)
unfolding take_next
take-IsOrdered all g [] e q v = elim (Bool-cases g.input_finished) [
  | inl finished ↦
      let (splits, receives, _) = held_at g Consumer.waits v e in
      subst (IsOrdered all)
        (sym (ap (λ b. if b then record g { consumer = Consumer.logs_finished } else g) finished))
        (record {
          answered = v.answered;
          splits = splits;
          prints = v.prints;
          accepts = v.accepts;
          rejects = v.rejects;
          acks = v.acks;
          receives = receives;
          flag_fits = v.flag_fits;
          closed_fits = (finished, q);
        })
  | inr unset ↦
      subst (IsOrdered all)
        (sym (ap (λ b. if b then record g { consumer = Consumer.logs_finished } else g) unset)) v
]
take-IsOrdered all g (c ∷ rest) e q v =
    let (splits, receives, _) = held_at g Consumer.waits v e in
    record {
      answered = v.answered;
      splits =
          splits ∙ ap (λ cs. v.answered ++ (cs ++ numbered g.sequence (inputs_left g.producer))) q;
      prints = v.prints;
      accepts = v.accepts;
      rejects = v.rejects;
      acks = v.acks;
      receives = omega (arith, receives, ap length q);
      flag_fits = v.flag_fits;
      closed_fits = tt;
    }

handle-IsOrdered :
    (all : List RawCommand) (g : Gateway) (c : RawCommand)
    → g.consumer ≡ Consumer.holds c
    → IsOrdered all g
    → IsOrdered all (handle c g)
unfolding handle
handle-IsOrdered all g c e v = elim (Bool-cases (is_accepted c)) [
  | inl good ↦ rw good (record {
    answered = v.answered ++ c ∷ [];
    splits = splits;
    prints =
        ap (λ t. t ++ print_result (accepted_result c (ProtocolParser.parse c.payload)) ∷ [])
          v.prints
        ∙ sym (printed_good good);
    accepts = omega (arith, v.accepts, count_good good);
    rejects = omega (arith, v.rejects, more);
    acks = omega (arith, v.acks, more);
    receives = omega (arith, receives, more);
    flag_fits = v.flag_fits;
    closed_fits = tt;
  })
  | inr bad ↦ rw bad (record {
    answered = v.answered ++ c ∷ [];
    splits = splits;
    prints = ap (λ t. t ++ print_result (rejected_result c) ∷ []) v.prints ∙ sym (printed_bad bad);
    accepts = omega (arith, v.accepts, count_bad bad);
    rejects = omega (arith, v.rejects, more);
    acks = omega (arith, v.acks, more);
    receives = omega (arith, receives, more);
    flag_fits = v.flag_fits;
    closed_fits = tt;
  })
]
  where
    rest : List RawCommand
    rest = g.command_queue ++ numbered g.sequence (inputs_left g.producer)

    splits : all ≡ (v.answered ++ c ∷ []) ++ rest
    splits = (held_at g (Consumer.holds c) v e).0 ∙ sym (append_assoc v.answered (c ∷ []) rest)

    receives : g.stats.received ≡ length v.answered + 1 + length g.command_queue
    receives = (held_at g (Consumer.holds c) v e).1

    more : length (v.answered ++ c ∷ []) ≡ length v.answered + 1
    more = length-append v.answered (c ∷ [])

    printed_good :
        is_accepted c ≡ true
        → answers_to (v.answered ++ c ∷ [])
          ≡ answers_to v.answered
            ++ print_result (accepted_result c (ProtocolParser.parse c.payload)) ∷ []
    printed_good good = rw good at (answers_to-append v.answered c)

    printed_bad :
        is_accepted c ≡ false
        → answers_to (v.answered ++ c ∷ [])
          ≡ answers_to v.answered ++ print_result (rejected_result c) ∷ []
    printed_bad bad = rw bad at (answers_to-append v.answered c)

    count_good :
        is_accepted c ≡ true → accepted_in (v.answered ++ c ∷ []) ≡ suc (accepted_in v.answered)
    count_good good = rw good at (accepted_in-append v.answered c)

    count_bad : is_accepted c ≡ false → accepted_in (v.answered ++ c ∷ []) ≡ accepted_in v.answered
    count_bad bad = rw bad at (accepted_in-append v.answered c)

consumer-IsOrdered :
    (all : List RawCommand) (g : Gateway) (c : Consumer)
    → g.consumer ≡ c
    → IsOrdered all g
    → IsOrdered all (consumer_step c g)
unfolding consumer_step
consumer-IsOrdered all g Consumer.waits e v = take-IsOrdered all g g.command_queue e refl v
consumer-IsOrdered all g (Consumer.holds c) e v = handle-IsOrdered all g c e v
consumer-IsOrdered all g Consumer.logs_finished e v =
    let (splits, receives, closed) = held_at g Consumer.logs_finished v e in
    record {
      answered = v.answered;
      splits = splits;
      prints = v.prints;
      accepts = v.accepts;
      rejects = v.rejects;
      acks = v.acks;
      receives = receives;
      flag_fits = v.flag_fits;
      closed_fits = closed;
    }
consumer-IsOrdered all g Consumer.ended e v = v

pub step-IsOrdered :
    (all : List RawCommand) (g : Gateway) (t : Turn) → IsOrdered all g → IsOrdered all (step g t)
unfolding step
step-IsOrdered all g producer_turn v = producer-IsOrdered all g g.producer refl v
step-IsOrdered all g consumer_turn v = consumer-IsOrdered all g g.consumer refl v

run_keeps_order :
    (all : List RawCommand) (g : Gateway) (ts : List Turn)
    → IsOrdered all g
    → IsOrdered all (run g ts)
run_keeps_order all g [] v = v
run_keeps_order all g (t ∷ ts) v = run_keeps_order all (step g t) ts (step-IsOrdered all g t v)

pub new_gateway-IsOrdered :
    (logger : LogManager) (inputs : List Bytes)
    → IsOrdered (numbered 0 inputs) (new_gateway logger inputs)
unfolding new_gateway
new_gateway-IsOrdered logger inputs = record {
  answered = [];
  splits = refl;
  prints = refl;
  accepts = refl;
  rejects = refl;
  acks = refl;
  receives = refl;
  flag_fits = refl;
  closed_fits = tt;
}

-- However the two threads take turns, the inputs are answered in their order, each once and as its
-- own text decides; what is not answered yet is in the consumer's hand, in the queue, or still to
-- come, and the four counters count what has happened.
pub run-IsOrdered :
    (logger : LogManager) (inputs : List Bytes) (ts : List Turn)
    → IsOrdered (numbered 0 inputs) (run (new_gateway logger inputs) ts)
run-IsOrdered logger inputs ts =
    run_keeps_order (numbered 0 inputs) (new_gateway logger inputs) ts
      (new_gateway-IsOrdered logger inputs)

nothing_left : (p : Producer) (flag : Bool) → FlagFits p flag → flag ≡ true → inputs_left p ≡ []
nothing_left (Producer.sends inputs) flag h e = cc
nothing_left (Producer.logs_queued inputs) flag h e = cc
nothing_left Producer.logs_finished flag h e = refl
nothing_left Producer.ended flag h e = refl

ended_all :
    (all : List RawCommand) (g : Gateway)
    → g.consumer ≡ Consumer.ended
    → IsOrdered all g
    → g.printed ≡ answers_to all
ended_all all g e v =
    let (splits, _, (finished, no_queue)) = held_at g Consumer.ended v e in
    let no_inputs = nothing_left g.producer g.input_finished v.flag_fits finished in
    let all_answered : all ≡ v.answered ++ [] =
      splits
      ∙ ap (λ cs. v.answered ++ (cs ++ numbered g.sequence (inputs_left g.producer))) no_queue
      ∙ ap (λ inputs. v.answered ++ numbered g.sequence inputs) no_inputs in
    v.prints ∙ ap answers_to (sym (all_answered ∙ append-nil v.answered))

-- When the consumer has ended, in whatever interleaving, every input has been answered, in order.
pub run-answers_to :
    (logger : LogManager) (inputs : List Bytes) (ts : List Turn)
    → (run (new_gateway logger inputs) ts).consumer ≡ Consumer.ended
    → (run (new_gateway logger inputs) ts).printed ≡ answers_to (numbered 0 inputs)
run-answers_to logger inputs ts e =
    ended_all (numbered 0 inputs) (run (new_gateway logger inputs) ts) e
      (run-IsOrdered logger inputs ts)
