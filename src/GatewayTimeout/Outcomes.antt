-- ===== src/GatewayTimeout/Outcomes.antt =====
-- The turns of both threads keep the account of the sender.
use linux_iot_gateway.Common.{
  ℕ, true, false, List, [], ◌∷◌, Bytes, refl, sym, subst, if◌then◌else◌, Bool-cases, inl, inr,
}
use linux_iot_gateway.Common.OrderedMap
use linux_iot_gateway.LogManager.{LogManager}
use linux_iot_gateway.GatewayTimeout.{
  PendingRequest, Gateway, Device, device_step, ack_of, take_request, new_gateway,
}
use linux_iot_gateway.GatewayTimeout.Schedule.{
  Turn, sender_turn, deadline_turn, device_turn, step, run, due,
}
use linux_iot_gateway.GatewayTimeout.Accounts.{Fits, AcksFit}
use linux_iot_gateway.GatewayTimeout.SenderTurns.{Accounted, sender-Accounted}

take-Accounted :
    (all : List ℕ) (queue : List PendingRequest) (g : Gateway)
    → Accounted all g
    → AcksFit g
    → Accounted all (take_request queue g) × AcksFit (take_request queue g)
unfolding take_request
take-Accounted all [] g v h = elim (Bool-cases g.transmission_finished) [
  | inl done ↦
      subst (λ b. Both (if b then record g { device = Device.logs_finished } else g)) (sym done)
        (v, h)
  | inr unset ↦
      subst (λ b. Both (if b then record g { device = Device.logs_finished } else g)) (sym unset)
        (v, h)
]
  where
    Both : Gateway → Type 0
    Both g = Accounted all g × AcksFit g
take-Accounted all (r ∷ rest) g v h = (v, h)

device-Accounted :
    (all : List ℕ) (d : Device) (g : Gateway)
    → Accounted all g
    → AcksFit g
    → Accounted all (device_step d g) × AcksFit (device_step d g)
unfolding device_step
device-Accounted all Device.waits g v h = take-Accounted all g.tx_queue g v h
device-Accounted all (Device.logs_received r) g v h = (v, h)
device-Accounted all Device.logs_loss g v h = (v, h)
device-Accounted all (Device.stores_ack r) g v h =
    (v, OrderedMap.assign-Entries Fits r.sequence (ack_of r) g.ack_map refl h)
device-Accounted all Device.logs_finished g v h = (v, h)
device-Accounted all Device.ended g v h = (v, h)

pub step-Accounted :
    (all : List ℕ) (g : Gateway) (t : Turn)
    → Accounted all g
    → AcksFit g
    → Accounted all (step g t) × AcksFit (step g t)
unfolding step
step-Accounted all g sender_turn v h = sender-Accounted all false g.sender g v h v
step-Accounted all g deadline_turn v h = sender-Accounted all true g.sender g v h v
step-Accounted all g device_turn v h = device-Accounted all g.device g v h

run_keeps :
    (all : List ℕ) (g : Gateway) (ts : List Turn)
    → Accounted all g
    → AcksFit g
    → Accounted all (run g ts) × AcksFit (run g ts)
run_keeps all g [] v h = (v, h)
run_keeps all g (t ∷ ts) v h =
    let (v', h') = step-Accounted all g t v h in run_keeps all (step g t) ts v' h'

-- However the sender, the device and the deadlines take turns, each valid command in its order has
-- one outcome, an acknowledgement after at most `kMaxRetries` timeouts or a failure after one more;
-- what the sender has put out and its five counters are those of the outcomes and of the request in
-- hand, and each ACK it took up was one for its request.
pub run-Accounted :
    (logger : LogManager) (inputs : List Bytes) (ts : List Turn)
    → Accounted (due 0 inputs) (run (new_gateway logger inputs) ts)
unfolding new_gateway
run-Accounted logger inputs ts =
    (run_keeps (due 0 inputs) (new_gateway logger inputs) ts start tt).0
  where
    start : Accounted (due 0 inputs) (new_gateway logger inputs)
    start = record {
      results = [];
      within = tt;
      splits = refl;
      prints = refl;
      acks = refl;
      fails = refl;
      retried = refl;
      timed = refl;
      sent = refl;
      fits = tt;
    }
