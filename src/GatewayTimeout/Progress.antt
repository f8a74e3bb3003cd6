-- ===== src/GatewayTimeout/Progress.antt =====
-- Rounds in which both threads have turns, and how much is left to do.
pub mod Flags
pub mod Rounds
use linux_iot_gateway.Common.{
  ℕ, zero, suc, ◌+◌, ◌-◌, ◌*◌, ◌≤◌, ◌<◌, ◌%◌, ◌^◌, Bool, true, false, not, List, [], ◌∷◌, ◌++◌,
  Bytes, ◌≡◌, ◌⊎◌, refl, sym, ap, subst, arith, if◌then◌else◌, Bool-cases, Option, none, some, inl,
  inr, leb, leb→le, length, length-append,
}
use linux_iot_gateway.Common.OrderedMap
use linux_iot_gateway.ProtocolParser
use linux_iot_gateway.GatewayTimeout.{
  PendingRequest, AckFrame, Gateway, Sender, Device, max_retries, sender_step, device_step,
  next_command, look_for_ack, found_ack, after_timeout, take_request, is_lost,
}
use linux_iot_gateway.GatewayTimeout.Accounts.{SenderFits}

-- What is left of the commands and of the attempts of a request, with the device's turns for each.
abbrev attempts_left : PendingRequest → List Bytes → ℕ
attempts_left r rest = 8 * (3 - r.attempt) + 18 * length rest

abbrev pub sender_work : Sender → ℕ
sender_work (Sender.next s rest) = 18 * length rest + 4
sender_work (Sender.sends r rest) = attempts_left r rest + 4
sender_work (Sender.logs_send r rest) = attempts_left r rest - 1
sender_work (Sender.waits r rest) = attempts_left r rest - 2
sender_work (Sender.acknowledged r ack rest) = attempts_left r rest - 3
sender_work (Sender.timed_out r rest) = attempts_left r rest - 3
sender_work Sender.closes = 3
sender_work Sender.logs_finished = 1
sender_work Sender.ended = 0

abbrev pub device_work : Device → ℕ
device_work Device.waits = 2
device_work (Device.logs_received r) = 5
device_work Device.logs_loss = 4
device_work (Device.stores_ack r) = 4
device_work Device.logs_finished = 1
device_work Device.ended = 0

abbrev pub work : Gateway → ℕ
work g = sender_work g.sender + device_work g.device + 4 * length g.tx_queue

-- `transmissionFinished` is set exactly when the sender has left its loop.
abbrev pub FlagFits : Sender → Bool → Type 0
FlagFits Sender.logs_finished flag = flag ≡ true
FlagFits Sender.ended flag = flag ≡ true
FlagFits _ flag = flag ≡ false

-- The device leaves its loop only when no request can come any more.
abbrev pub ClosedFits : Device → Bool → List PendingRequest → Type 0
ClosedFits Device.logs_finished flag queue = (flag ≡ true) × (queue ≡ [])
ClosedFits Device.ended flag queue = (flag ≡ true) × (queue ≡ [])
ClosedFits _ flag queue = Unit {0}

pub record IsOpen (g : Gateway) : Type 0 where
  pub flag_fits : FlagFits g.sender g.transmission_finished
  pub closed_fits : ClosedFits g.device g.transmission_finished g.tx_queue

pub still_open :
    (d : Device) (flag flag' : Bool) (queue queue' : List PendingRequest)
    → flag ≡ false
    → ClosedFits d flag queue
    → ClosedFits d flag' queue'
still_open Device.waits flag flag' queue queue' e h = tt
still_open (Device.logs_received r) flag flag' queue queue' e h = tt
still_open Device.logs_loss flag flag' queue queue' e h = tt
still_open (Device.stores_ack r) flag flag' queue queue' e h = tt
still_open Device.logs_finished flag flag' queue queue' e h = cc
still_open Device.ended flag flag' queue queue' e h = cc

pub next_command-work :
    (s : ℕ) (rest : List Bytes)
    → (sender_work (next_command s rest) < 18 * length rest + 4)
      × (FlagFits (next_command s rest) false)
unfolding next_command
next_command-work s [] = (omega arith, refl)
next_command-work s (payload ∷ rest) =
    elim (Bool-cases (ProtocolParser.is_valid (ProtocolParser.parse payload))) [
      | inl good ↦ rw good (omega arith, refl)
      | inr bad ↦ rw bad (omega arith, refl)
    ]

-- A turn of the sender: work is done, or the sender waits with the deadline still to come, or it
-- has ended.
abbrev pub SenderMoves : Bool → Sender → Gateway → Gateway → Type 0
SenderMoves deadline p g g' =
    (sender_work g'.sender + 4 * length g'.tx_queue < sender_work p + 4 * length g.tx_queue)
    ⊎ ((g' ≡ g) × ((deadline ≡ false) ⊎ (p ≡ Sender.ended)))

pub timeout-moves :
    (r : PendingRequest) (rest : List Bytes) (g : Gateway)
    → SenderFits (Sender.timed_out r rest)
    → let g' = after_timeout r rest g in
      (sender_work g'.sender < sender_work (Sender.timed_out r rest))
      × (g'.tx_queue ≡ g.tx_queue)
      × (g'.device ≡ g.device)
      × (g'.transmission_finished ≡ g.transmission_finished)
      × FlagFits g'.sender false
unfolding after_timeout
timeout-moves r rest g f = elim (Bool-cases (leb r.attempt max_retries)) [
  | inl again ↦ rw again (omega (arith, leb→le r.attempt max_retries again), refl, refl, refl, refl)
  | inr over ↦ rw over (omega arith, refl, refl, refl, refl)
]

pub sender-moves :
    (deadline : Bool) (p : Sender) (g : Gateway)
    → SenderFits p
    → SenderMoves deadline p g (sender_step deadline p g)
unfolding sender_step look_for_ack
sender-moves deadline (Sender.next s rest) g f = inl (omega (arith, (next_command-work s rest).0))
sender-moves deadline (Sender.sends r rest) g f =
    inl (omega (arith, length-append g.tx_queue (r ∷ [])))
sender-moves deadline (Sender.logs_send r rest) g f = inl (omega arith)
sender-moves deadline (Sender.waits r rest) g f =
    looked (OrderedMap.find r.sequence g.ack_map) deadline
  where
    looked :
        (found : Option AckFrame) (deadline : Bool)
        → SenderMoves deadline (Sender.waits r rest) g (found_ack found deadline r rest g)
    looked none true = inl (omega arith)
    looked none false = inr (refl, inl refl)
    looked (some ack) deadline = inl (omega arith)
sender-moves deadline (Sender.acknowledged r ack rest) g f = inl (omega arith)
sender-moves deadline (Sender.timed_out r rest) g f =
    let (less, same, _, _, _) = timeout-moves r rest g f in
    inl (omega (arith, less, ap length same))
sender-moves deadline Sender.closes g f = inl (omega arith)
sender-moves deadline Sender.logs_finished g f = inl (omega arith)
sender-moves deadline Sender.ended g f = inr (refl, inr refl)

-- A turn of the device: work is done, or nothing is there and more may come, or it has ended.
abbrev pub DeviceMoves : Device → Gateway → Gateway → Type 0
DeviceMoves d g g' =
    (device_work g'.device + 4 * length g'.tx_queue < device_work d + 4 * length g.tx_queue)
    ⊎ ((g' ≡ g) × ((g.transmission_finished ≡ false) ⊎ (d ≡ Device.ended)))

take-moves :
    (queue : List PendingRequest) (g : Gateway)
    → g.tx_queue ≡ queue
    → DeviceMoves Device.waits g (take_request queue g)
unfolding take_request
take-moves [] g e = elim (Bool-cases g.transmission_finished) [
  | inl done ↦
      subst
        (λ b.
          DeviceMoves Device.waits g (if b then record g { device = Device.logs_finished } else g))
        (sym done) (inl (omega arith))
  | inr unset ↦
      subst
        (λ b.
          DeviceMoves Device.waits g (if b then record g { device = Device.logs_finished } else g))
        (sym unset) (inr (refl, inl unset))
]
take-moves (r ∷ rest) g e = inl (omega (arith, ap length e))

pub device-moves : (d : Device) (g : Gateway) → DeviceMoves d g (device_step d g)
unfolding device_step
device-moves Device.waits g = take-moves g.tx_queue g refl
device-moves (Device.logs_received r) g = elim (Bool-cases (is_lost r)) [
  | inl lost ↦ rw lost (inl (omega arith))
  | inr kept ↦ rw kept (inl (omega arith))
]
device-moves Device.logs_loss g = inl (omega arith)
device-moves (Device.stores_ack r) g = inl (omega arith)
device-moves Device.logs_finished g = inl (omega arith)
device-moves Device.ended g = inr (refl, inr refl)
