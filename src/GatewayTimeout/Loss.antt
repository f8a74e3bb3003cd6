-- ===== src/GatewayTimeout/Loss.antt =====
-- The ACK that the device loses: what is on its way, by the attempts that have been made.
pub mod Runs
use linux_iot_gateway.Common.{
  ℕ, zero, suc, ◌+◌, ◌-◌, ◌*◌, ◌≤◌, ◌<◌, ◌%◌, ◌^◌, Bool, true, false, not, List, [], ◌∷◌, ◌++◌,
  Bytes, ◌≡◌, refl, sym, ap, subst, arith, if◌then◌else◌, Bool-cases, Option, none, some, inl, inr,
  leb, leb→le, ==_iff, All, All-map, All-append, length,
}
use linux_iot_gateway.Common.OrderedMap
use linux_iot_gateway.ProtocolParser
use linux_iot_gateway.LogManager.{LogManager}
use linux_iot_gateway.GatewayTimeout.{
  PendingRequest, AckFrame, Gateway, Sender, Device, max_retries, sender_step, device_step,
  next_command, look_for_ack, found_ack, after_timeout, take_request, is_lost, ack_of, new_gateway,
}
use linux_iot_gateway.GatewayTimeout.Schedule.{
  Turn, sender_turn, deadline_turn, device_turn, step, run,
}

-- The attempts in the order in which they are made.
abbrev pub place : PendingRequest → ℕ
place r = r.sequence * 3 + r.attempt

-- How far the sender has come.
abbrev pub reached : Sender → ℕ
reached (Sender.next s rest) = s * 3 + 2
reached (Sender.sends r rest) = place r - 1
reached (Sender.logs_send r rest) = place r
reached (Sender.waits r rest) = place r
reached (Sender.acknowledged r ack rest) = place r
reached (Sender.timed_out r rest) = place r
reached _ = 3 * 2 ^ 32

abbrev InRange : PendingRequest → List Bytes → Type 0
InRange r rest =
    (1 ≤ r.attempt) × (r.attempt ≤ suc max_retries) × (r.sequence + length rest < 2 ^ 32)

abbrev pub NoWrap : Sender → Type 0
NoWrap (Sender.next s rest) = s + length rest < 2 ^ 32
NoWrap (Sender.sends r rest) = InRange r rest
NoWrap (Sender.logs_send r rest) = InRange r rest
NoWrap (Sender.waits r rest) = InRange r rest
NoWrap (Sender.acknowledged r ack rest) = InRange r rest × (r.sequence ≡ 3 → 2 ≤ r.attempt)
NoWrap (Sender.timed_out r rest) = InRange r rest
NoWrap _ = Unit {0}

-- A request that has been sent.
abbrev pub WasSent : ℕ → PendingRequest → Type 0
WasSent n r = (1 ≤ r.attempt) × (place r ≤ n)

-- The second attempt of request 3 has been made.
abbrev pub PastLoss : ℕ → ℕ → Type 0
PastLoss n sequence = sequence ≡ 3 → 11 ≤ n

abbrev pub DeviceFits : ℕ → Device → Type 0
DeviceFits n (Device.logs_received r) = WasSent n r
DeviceFits n (Device.stores_ack r) = PastLoss n r.sequence
DeviceFits n _ = Unit {0}

pub record IsBehind (n : ℕ) (g : Gateway) : Type 0 where
  pub queued : All (WasSent n) g.tx_queue
  pub device_fits : DeviceFits n g.device
  pub acks : OrderedMap.Entries (λ k ack. PastLoss n k) g.ack_map

DeviceFits-mono : (n m : ℕ) (d : Device) → n ≤ m → DeviceFits n d → DeviceFits m d
DeviceFits-mono n m Device.waits h f = tt
DeviceFits-mono n m (Device.logs_received r) h f = omega arith
DeviceFits-mono n m Device.logs_loss h f = tt
DeviceFits-mono n m (Device.stores_ack r) h f = λ e. omega (arith, f e)
DeviceFits-mono n m Device.logs_finished h f = tt
DeviceFits-mono n m Device.ended h f = tt

Entries-mono :
    (n m : ℕ) (acks : List (ℕ × AckFrame))
    → n ≤ m
    → OrderedMap.Entries (λ k ack. PastLoss n k) acks
    → OrderedMap.Entries (λ k ack. PastLoss m k) acks
Entries-mono n m [] h f = tt
Entries-mono n m ((k, ack) ∷ acks) h (f, fs) =
    ((λ e. omega (arith, f e)), Entries-mono n m acks h fs)

pub IsBehind-mono : (n m : ℕ) (g : Gateway) → n ≤ m → IsBehind n g → IsBehind m g
IsBehind-mono n m g h v = record {
  queued = All-map (λ (r : PendingRequest) (w : WasSent n r). within r w) g.tx_queue v.queued;
  device_fits = DeviceFits-mono n m g.device h v.device_fits;
  acks = Entries-mono n m g.ack_map h v.acks;
}
  where
    within : (r : PendingRequest) → WasSent n r → WasSent m r
    within r w = omega arith

take-IsBehind :
    (n : ℕ) (queue : List PendingRequest) (g : Gateway)
    → All (WasSent n) queue
    → IsBehind n g
    → IsBehind n (take_request queue g)
unfolding take_request
take-IsBehind n [] g q v = elim (Bool-cases g.transmission_finished) [
  | inl done ↦
      subst (λ b. IsBehind n (if b then record g { device = Device.logs_finished } else g))
        (sym done) (record { queued = v.queued; device_fits = tt; acks = v.acks })
  | inr unset ↦
      subst (λ b. IsBehind n (if b then record g { device = Device.logs_finished } else g))
        (sym unset) v
]
take-IsBehind n (r ∷ rest) g (w, ws) v = record { queued = ws; device_fits = w; acks = v.acks }

-- What is not lost is no first attempt of request 3.
not_lost : (n : ℕ) (r : PendingRequest) → WasSent n r → is_lost r ≡ false → PastLoss n r.sequence
not_lost n r w h e = ground arith

pub device-IsBehind :
    (n : ℕ) (d : Device) (g : Gateway)
    → DeviceFits n d
    → IsBehind n g
    → IsBehind n (device_step d g)
unfolding device_step
device-IsBehind n Device.waits g f v = take-IsBehind n g.tx_queue g v.queued v
device-IsBehind n (Device.logs_received r) g f v = record {
  queued = v.queued;
  device_fits = elim (Bool-cases (is_lost r)) [
    | inl lost ↦ rw lost tt
    | inr kept ↦ rw kept (not_lost n r f kept)
  ];
  acks = v.acks;
}
device-IsBehind n Device.logs_loss g f v = record {
  queued = v.queued;
  device_fits = tt;
  acks = v.acks;
}
device-IsBehind n (Device.stores_ack r) g f v = record {
  queued = v.queued;
  device_fits = tt;
  acks = OrderedMap.assign-Entries (λ k ack. PastLoss n k) r.sequence (ack_of r) g.ack_map f v.acks;
}
device-IsBehind n Device.logs_finished g f v = record {
  queued = v.queued;
  device_fits = tt;
  acks = v.acks;
}
device-IsBehind n Device.ended g f v = v

take_request-sender :
    (queue : List PendingRequest) (g : Gateway) → (take_request queue g).sender ≡ g.sender
unfolding take_request
take_request-sender [] g = ground arith
take_request-sender (r ∷ rest) g = refl

pub device-sender : (d : Device) (g : Gateway) → (device_step d g).sender ≡ g.sender
unfolding device_step
device-sender Device.waits g = take_request-sender g.tx_queue g
device-sender (Device.logs_received r) g = refl
device-sender Device.logs_loss g = refl
device-sender (Device.stores_ack r) g = refl
device-sender Device.logs_finished g = refl
device-sender Device.ended g = refl
