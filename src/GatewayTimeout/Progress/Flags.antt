-- ===== src/GatewayTimeout/Progress/Flags.antt =====
-- The flag and the queue, turn by turn.
use linux_iot_gateway.Common.{
  Bool, true, false, List, [], ◌∷◌, Bytes, ◌≡◌, refl, sym, ◌∙◌, subst, if◌then◌else◌, Bool-cases,
  Option, none, some, inl, inr,
}
use linux_iot_gateway.Common.OrderedMap
use linux_iot_gateway.GatewayTimeout.{
  PendingRequest, AckFrame, Gateway, Sender, Device, sender_step, device_step, look_for_ack,
  found_ack, after_timeout, is_lost, take_request,
}
use linux_iot_gateway.GatewayTimeout.Accounts.{SenderFits}
use linux_iot_gateway.GatewayTimeout.Progress.{
  FlagFits, ClosedFits, IsOpen, still_open, next_command-work, timeout-moves,
}

-- What a turn of the sender leaves of the other thread's state.
found-IsOpen :
    (found : Option AckFrame) (deadline : Bool) (r : PendingRequest) (rest : List Bytes)
    (g : Gateway)
    → FlagFits (Sender.waits r rest) g.transmission_finished
    → IsOpen g
    → let g' = found_ack found deadline r rest g in IsOpen g' × (g'.device ≡ g.device)
unfolding found_ack
found-IsOpen none true r rest g f v = (record { flag_fits = f; closed_fits = v.closed_fits }, refl)
found-IsOpen none false r rest g f v = (v, refl)
found-IsOpen (some ack) deadline r rest g f v =
    (record { flag_fits = f; closed_fits = v.closed_fits }, refl)

pub sender-IsOpen :
    (deadline : Bool) (p : Sender) (g : Gateway)
    → SenderFits p
    → FlagFits p g.transmission_finished
    → IsOpen g
    → let g' = sender_step deadline p g in IsOpen g' × (g'.device ≡ g.device)
unfolding sender_step look_for_ack
sender-IsOpen deadline (Sender.next s rest) g s_fits f v =
    (record { flag_fits = rw f (next_command-work s rest).1; closed_fits = v.closed_fits }, refl)
sender-IsOpen deadline (Sender.sends r rest) g s_fits f v = (
  record {
    flag_fits = f;
    closed_fits =
        still_open g.device g.transmission_finished g.transmission_finished g.tx_queue _ f
          v.closed_fits;
  },
  refl,
)
sender-IsOpen deadline (Sender.logs_send r rest) g s_fits f v =
    (record { flag_fits = f; closed_fits = v.closed_fits }, refl)
sender-IsOpen deadline (Sender.waits r rest) g s_fits f v =
    found-IsOpen (OrderedMap.find r.sequence g.ack_map) deadline r rest g f v
sender-IsOpen deadline (Sender.acknowledged r ack rest) g s_fits f v =
    (record { flag_fits = f; closed_fits = v.closed_fits }, refl)
sender-IsOpen deadline (Sender.timed_out r rest) g s_fits f v =
    let (_, queue, device, flag, fits) = timeout-moves r rest g s_fits in
    (
      record {
        flag_fits = subst (FlagFits (after_timeout r rest g).sender) (sym (flag ∙ f)) fits;
        closed_fits = rw (queue, device, flag) v.closed_fits;
      },
      device,
    )
sender-IsOpen deadline Sender.closes g s_fits f v = (
  record {
    flag_fits = refl;
    closed_fits =
        still_open g.device g.transmission_finished true g.tx_queue g.tx_queue f v.closed_fits;
  },
  refl,
)
sender-IsOpen deadline Sender.logs_finished g s_fits f v =
    (record { flag_fits = f; closed_fits = v.closed_fits }, refl)
sender-IsOpen deadline Sender.ended g s_fits f v = (v, refl)

take-IsOpen :
    (queue : List PendingRequest) (g : Gateway)
    → g.tx_queue ≡ queue
    → IsOpen g
    → IsOpen (take_request queue g)
unfolding take_request
take-IsOpen [] g e v = elim (Bool-cases g.transmission_finished) [
  | inl done ↦
      subst (λ b. IsOpen (if b then record g { device = Device.logs_finished } else g)) (sym done)
        (record { flag_fits = v.flag_fits; closed_fits = (done, e) })
  | inr unset ↦
      subst (λ b. IsOpen (if b then record g { device = Device.logs_finished } else g)) (sym unset)
        v
]
take-IsOpen (r ∷ rest) g e v = record { flag_fits = v.flag_fits; closed_fits = tt }

pub device-IsOpen :
    (d : Device) (g : Gateway)
    → ClosedFits d g.transmission_finished g.tx_queue
    → IsOpen g
    → IsOpen (device_step d g)
unfolding device_step
device-IsOpen Device.waits g c v = take-IsOpen g.tx_queue g refl v
device-IsOpen (Device.logs_received r) g c v = record {
  flag_fits = v.flag_fits;
  closed_fits = elim (Bool-cases (is_lost r)) [ inl lost ↦ rw lost tt | inr kept ↦ rw kept tt ];
}
device-IsOpen Device.logs_loss g c v = record { flag_fits = v.flag_fits; closed_fits = tt }
device-IsOpen (Device.stores_ack r) g c v = record { flag_fits = v.flag_fits; closed_fits = tt }
device-IsOpen Device.logs_finished g c v = record { flag_fits = v.flag_fits; closed_fits = c }
device-IsOpen Device.ended g c v = v
