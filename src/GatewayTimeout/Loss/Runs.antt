-- ===== src/GatewayTimeout/Loss/Runs.antt =====
-- Runs in which no number wraps, and the ACK of request 3.
use linux_iot_gateway.Common.{
  ℕ, ◌+◌, ◌-◌, ◌*◌, ◌≤◌, ◌<◌, ◌^◌, Bool, true, false, List, [], ◌∷◌, Bytes, ◌≡◌, refl, sym, subst,
  arith, Bool-cases, Option, none, some, inl, inr, leb, leb→le, All-append, length,
}
use linux_iot_gateway.Common.OrderedMap
use linux_iot_gateway.ProtocolParser
use linux_iot_gateway.LogManager.{LogManager}
use linux_iot_gateway.GatewayTimeout.{
  PendingRequest, AckFrame, Gateway, Sender, max_retries, sender_step, device_step, next_command,
  look_for_ack, found_ack, after_timeout, new_gateway,
}
use linux_iot_gateway.GatewayTimeout.Schedule.{
  Turn, sender_turn, deadline_turn, device_turn, step, run,
}
use linux_iot_gateway.GatewayTimeout.Loss.{
  place, reached, NoWrap, WasSent, PastLoss, IsBehind, IsBehind-mono, device-IsBehind,
  device-sender,
}

-- The sender has not gone back, and all that is on its way belongs to attempts that it has made.
abbrev Kept : ℕ → Gateway → Type 0
Kept n g = (n ≤ reached g.sender) × NoWrap g.sender × IsBehind (reached g.sender) g

next-NoWrap :
    (s : ℕ) (rest : List Bytes)
    → s + length rest < 2 ^ 32
    → (s * 3 + 2 ≤ reached (next_command s rest)) × NoWrap (next_command s rest)
unfolding next_command
next-NoWrap s [] h = omega arith
next-NoWrap s (payload ∷ rest) h =
    elim (Bool-cases (ProtocolParser.is_valid (ProtocolParser.parse payload))) [
      | inl good ↦ rw good (omega arith)
      | inr bad ↦ rw bad (omega arith)
    ]

-- A turn of the sender that leaves the queue and the ACKs.
moved-Kept :
    (n : ℕ) (g g' : Gateway)
    → g'.tx_queue ≡ g.tx_queue
    → g'.device ≡ g.device
    → g'.ack_map ≡ g.ack_map
    → n ≤ reached g'.sender
    → NoWrap g'.sender
    → IsBehind n g
    → Kept n g'
moved-Kept n g g' q d a h w v = (h, w, IsBehind-mono n (reached g'.sender) g' h here)
  where
    here : IsBehind n g'
    here = record { queued = rw q v.queued; device_fits = rw d v.device_fits; acks = rw a v.acks }

module _ (r : PendingRequest) (rest : List Bytes) (g : Gateway) where
  timeout-Kept :
      NoWrap (Sender.timed_out r rest)
      → IsBehind (place r) g
      → Kept (place r) (after_timeout r rest g)
  unfolding after_timeout
  timeout-Kept w v = elim (Bool-cases (leb r.attempt max_retries)) [
    | inl again ↦ rw again (
        moved-Kept (place r) g _ refl refl refl (omega arith)
          (omega (arith, leb→le r.attempt max_retries again)) v)
    | inr over ↦ rw over (moved-Kept (place r) g _ refl refl refl (omega arith) (omega arith) v)
  ]

  found-Kept :
      (found : Option AckFrame) (deadline : Bool)
      → OrderedMap.find r.sequence g.ack_map ≡ found
      → g.sender ≡ Sender.waits r rest
      → NoWrap (Sender.waits r rest)
      → IsBehind (place r) g
      → Kept (place r) (found_ack found deadline r rest g)
  unfolding found_ack
  found-Kept none true e s w v = moved-Kept (place r) g _ refl refl refl (omega arith) w v
  found-Kept none false e s w v =
      subst (λ p. (place r ≤ reached p) × NoWrap p × IsBehind (reached p) g) (sym s)
        (omega arith, w, v)
  found-Kept (some ack) deadline e s w v = (
    omega arith,
    (
      w,
      λ is_3. omega (
        arith,
        OrderedMap.find-Entries (λ k ack. PastLoss (place r) k) r.sequence g.ack_map v.acks e is_3,
      ),
    ),
    record {
      queued = v.queued;
      device_fits = v.device_fits;
      acks = OrderedMap.erase-Entries (λ k ack. PastLoss (place r) k) r.sequence g.ack_map v.acks;
    },
  )

sender-Kept :
    (deadline : Bool) (p : Sender) (g : Gateway)
    → g.sender ≡ p
    → NoWrap p
    → IsBehind (reached p) g
    → Kept (reached p) (sender_step deadline p g)
unfolding sender_step look_for_ack
sender-Kept deadline (Sender.next s rest) g e w v =
    let (h, w') = next-NoWrap s rest w in
    moved-Kept (s * 3 + 2) g (record g { sender = next_command s rest }) refl refl refl h w' v
sender-Kept deadline (Sender.sends r rest) g e w v =
    let v' = IsBehind-mono (place r - 1) (place r) g (omega arith) v in
    (
      omega arith,
      w,
      record {
        queued = All-append (WasSent (place r)) g.tx_queue (r ∷ []) v'.queued (omega arith);
        device_fits = v'.device_fits;
        acks = v'.acks;
      },
    )
sender-Kept deadline (Sender.logs_send r rest) g e w v =
    moved-Kept (place r) g _ refl refl refl (omega arith) w v
sender-Kept deadline (Sender.waits r rest) g e w v =
    found-Kept r rest g (OrderedMap.find r.sequence g.ack_map) deadline refl e w v
sender-Kept deadline (Sender.acknowledged r ack rest) g e w v =
    moved-Kept (place r) g _ refl refl refl (omega arith) (omega arith) v
sender-Kept deadline (Sender.timed_out r rest) g e w v = timeout-Kept r rest g w v
sender-Kept deadline Sender.closes g e w v =
    moved-Kept (3 * 2 ^ 32) g _ refl refl refl (omega arith) tt v
sender-Kept deadline Sender.logs_finished g e w v =
    moved-Kept (3 * 2 ^ 32) g _ refl refl refl (omega arith) tt v
sender-Kept deadline Sender.ended g e w v =
    subst (λ p. (3 * 2 ^ 32 ≤ reached p) × NoWrap p × IsBehind (reached p) g) (sym e)
      (omega arith, tt, v)

run-Kept :
    (g : Gateway) (ts : List Turn)
    → NoWrap g.sender
    → IsBehind (reached g.sender) g
    → NoWrap (run g ts).sender
unfolding step
run-Kept g [] w v = w
run-Kept g (sender_turn ∷ ts) w v =
    let (_, w', v') = sender-Kept false g.sender g refl w v in
    run-Kept (sender_step false g.sender g) ts w' v'
run-Kept g (deadline_turn ∷ ts) w v =
    let (_, w', v') = sender-Kept true g.sender g refl w v in
    run-Kept (sender_step true g.sender g) ts w' v'
run-Kept g (device_turn ∷ ts) w v =
    run-Kept (device_step g.device g) ts (subst NoWrap (sym (device-sender g.device g)) w) (
      subst (λ p. IsBehind (reached p) (device_step g.device g)) (sym (device-sender g.device g))
        (device-IsBehind (reached g.sender) g.device g v.device_fits v))

-- As long as no number wraps, the sender takes up no ACK for the first attempt of request 3,
-- whatever the deadlines: only the second attempt of that request can be acknowledged.
pub run-second_attempt :
    (logger : LogManager) (inputs : List Bytes) (ts : List Turn) {r : PendingRequest}
    {ack : AckFrame} {rest : List Bytes}
    → length inputs < 2 ^ 32
    → (run (new_gateway logger inputs) ts).sender ≡ Sender.acknowledged r ack rest
    → r.sequence ≡ 3
    → r.attempt ≡ 2
unfolding new_gateway
run-second_attempt logger inputs ts {r} {ack} {rest} h e is_3 =
    let (w, second) = subst NoWrap e (
      run-Kept (new_gateway logger inputs) ts (omega arith)
        (record { queued = tt; device_fits = tt; acks = tt })) in
    omega (arith, second is_3)
