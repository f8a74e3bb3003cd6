-- ===== src/GatewayAck/Order.antt =====
-- What has been answered and what is left, and the turns of the producer.
use linux_iot_gateway.Common.{
  ◌+◌, ◌%◌, ◌^◌, Bool, true, false, List, [], ◌∷◌, ◌++◌, ◌≡◌, refl, ap, sym, ◌∙◌, arith, Bytes,
  codes, length, length-append, append_assoc,
}
use linux_iot_gateway.LogManager.{LogManager}
use linux_iot_gateway.GatewayAck.{RawCommand, Producer, Consumer, Gateway, push_next, producer_step}
use linux_iot_gateway.GatewayAck.Schedule.{numbered, answers_to, accepted_in, inputs_left, held}

-- `inputFinished` is set exactly when the producer has sent all.
abbrev pub FlagFits : Producer → Bool → Type 0
FlagFits (Producer.sends inputs) flag = flag ≡ false
FlagFits (Producer.logs_queued inputs) flag = flag ≡ false
FlagFits _ flag = flag ≡ true

-- The consumer leaves its loop only when nothing can come any more.
abbrev pub ClosedFits : Consumer → Bool → List RawCommand → Type 0
ClosedFits Consumer.waits flag queue = Unit {0}
ClosedFits (Consumer.holds c) flag queue = Unit {0}
ClosedFits _ flag queue = (flag ≡ true) × (queue ≡ [])

-- What is not printed yet: the command in hand, those in the queue, and those to come.
abbrev pub to_answer : Gateway → List RawCommand
to_answer g = held g.consumer ++ (g.command_queue ++ numbered g.sequence (inputs_left g.producer))

-- The commands split into those that are answered and those to answer.
pub record IsOrdered (all : List RawCommand) (g : Gateway) : Type 0 where
  pub answered : List RawCommand
  pub splits : all ≡ answered ++ to_answer g
  pub prints : g.printed ≡ answers_to answered
  pub accepts : g.stats.accepted ≡ accepted_in answered
  pub rejects : g.stats.accepted + g.stats.rejected ≡ length answered
  pub acks : g.stats.ack_count ≡ length answered
  pub receives :
      g.stats.received ≡ length answered + length (held g.consumer) + length g.command_queue
  pub flag_fits : FlagFits g.producer g.input_finished
  pub closed_fits : ClosedFits g.consumer g.input_finished g.command_queue

pub still_open :
    (c : Consumer) (flag : Bool) (queue queue' : List RawCommand)
    → flag ≡ false
    → ClosedFits c flag queue
    → ClosedFits c flag queue'
still_open Consumer.waits flag queue queue' e h = tt
still_open (Consumer.holds c) flag queue queue' e h = tt
still_open Consumer.logs_finished flag queue queue' e h = cc
still_open Consumer.ended flag queue queue' e h = cc

pub splits_at :
    {all : List RawCommand} (g : Gateway) (p : Producer) (v : IsOrdered all g)
    → g.producer ≡ p
    → all
      ≡ v.answered ++ (held g.consumer ++ (g.command_queue ++ numbered g.sequence (inputs_left p)))
splits_at g p v e =
    v.splits
    ∙ ap
        (λ q.
          v.answered
          ++ (held g.consumer ++ (g.command_queue ++ numbered g.sequence (inputs_left q))))
        e

pub push-IsOrdered :
    (all : List RawCommand) (g : Gateway) (payload : Bytes) (rest : List Bytes)
    → g.producer ≡ Producer.sends (payload ∷ rest)
    → IsOrdered all g
    → IsOrdered all (push_next payload rest g)
unfolding push_next
push-IsOrdered all g payload rest e v = record {
  answered = v.answered;
  splits =
      splits_at g (Producer.sends (payload ∷ rest)) v e
      ∙ ap (λ cs. v.answered ++ (held g.consumer ++ cs))
          (sym (append_assoc g.command_queue (next ∷ []) (numbered next.sequence rest)));
  prints = v.prints;
  accepts = v.accepts;
  rejects = v.rejects;
  acks = v.acks;
  receives = omega (arith, v.receives, length-append g.command_queue (next ∷ []));
  flag_fits = rw e at v.flag_fits;
  closed_fits =
      still_open g.consumer g.input_finished g.command_queue (g.command_queue ++ next ∷ [])
        (rw e at v.flag_fits) v.closed_fits;
}
  where
    next : RawCommand
    next = record {
      sequence = (g.sequence + 1) % 2 ^ 32;
      source = codes "SIMULATED_UART";
      payload = payload;
    }

-- A step of the producer that only logs, or sets the flag.
pub moved-IsOrdered :
    (all : List RawCommand) (g : Gateway) (p p' : Producer) (flag : Bool) (logger : LogManager)
    → g.producer ≡ p
    → inputs_left p' ≡ inputs_left p
    → FlagFits p' flag
    → ClosedFits g.consumer flag g.command_queue
    → IsOrdered all g
    → IsOrdered all (record g { producer = p'; input_finished = flag; logger = logger })
moved-IsOrdered all g p p' flag logger e same fits closed v = record {
  answered = v.answered;
  splits =
      splits_at g p v e
      ∙ ap
          (λ inputs.
            v.answered ++ (held g.consumer ++ (g.command_queue ++ numbered g.sequence inputs)))
          (sym same);
  prints = v.prints;
  accepts = v.accepts;
  rejects = v.rejects;
  acks = v.acks;
  receives = v.receives;
  flag_fits = fits;
  closed_fits = closed;
}

pub producer-IsOrdered :
    (all : List RawCommand) (g : Gateway) (p : Producer)
    → g.producer ≡ p
    → IsOrdered all g
    → IsOrdered all (producer_step p g)
unfolding producer_step
producer-IsOrdered all g (Producer.sends (payload ∷ rest)) e v =
    push-IsOrdered all g payload rest e v
producer-IsOrdered all g (Producer.logs_queued rest) e v =
    moved-IsOrdered all g (Producer.logs_queued rest) (Producer.sends rest) g.input_finished _ e
      refl (rw e at v.flag_fits) v.closed_fits v
producer-IsOrdered all g (Producer.sends []) e v =
    moved-IsOrdered all g (Producer.sends []) Producer.logs_finished true g.logger e refl refl
      (opened g.consumer (rw e at v.flag_fits) v.closed_fits) v
  where
    opened :
        (c : Consumer)
        → g.input_finished ≡ false
        → ClosedFits c g.input_finished g.command_queue
        → ClosedFits c true g.command_queue
    opened Consumer.waits unset h = tt
    opened (Consumer.holds c) unset h = tt
    opened Consumer.logs_finished unset h = cc
    opened Consumer.ended unset h = cc
producer-IsOrdered all g Producer.logs_finished e v =
    moved-IsOrdered all g Producer.logs_finished Producer.ended g.input_finished _ e refl
      (rw e at v.flag_fits) v.closed_fits v
producer-IsOrdered all g Producer.ended e v = v
