-- ===== src/GatewayTimeout/Progress/Rounds.antt =====
-- Rounds bring both threads to their end.
use linux_iot_gateway.Common.{
  ℕ, zero, suc, ◌+◌, ◌*◌, ◌≤◌, ◌<◌, Bool, true, false, List, [], ◌∷◌, Bytes, ◌≡◌, ◌⊎◌, refl, ap,
  ◌∙◌, subst, arith, inl, inr, length,
}
use linux_iot_gateway.LogManager.{LogManager}
use linux_iot_gateway.GatewayTimeout.{
  PendingRequest, Gateway, Sender, Device, sender_step, device_step, new_gateway,
}
use linux_iot_gateway.GatewayTimeout.Schedule.{
  Turn, sender_turn, deadline_turn, device_turn, step, run, due,
}
use linux_iot_gateway.GatewayTimeout.Accounts.{SenderFits, AcksFit}
use linux_iot_gateway.GatewayTimeout.SenderTurns.{Accounted}
use linux_iot_gateway.GatewayTimeout.Outcomes.{step-Accounted, run-Accounted}
use linux_iot_gateway.GatewayTimeout.Loss.{device-sender}
use linux_iot_gateway.GatewayTimeout.Progress.{
  sender_work, device_work, work, FlagFits, ClosedFits, IsOpen, sender-moves, device-moves,
}
use linux_iot_gateway.GatewayTimeout.Progress.Flags.{sender-IsOpen, device-IsOpen}

record IsLive (all : List ℕ) (g : Gateway) : Type 0 where
  accounted : Accounted all g
  acks_fit : AcksFit g
  opened : IsOpen g

abbrev sender_at : Bool → Gateway → Gateway
sender_at deadline g = sender_step deadline g.sender g

abbrev device_at : Gateway → Gateway
device_at g = device_step g.device g

abbrev one_round : Gateway → Gateway
one_round g = step (step (step g sender_turn) deadline_turn) device_turn

-- A turn does some of the work, or leaves all as it is.
abbrev Moves : Gateway → Gateway → Type 0 → Type 0
Moves g g' Stays = (work g' < work g) ⊎ ((g' ≡ g) × Stays)

sender-Accounted :
    (all : List ℕ) (deadline : Bool) (g : Gateway)
    → Accounted all g
    → AcksFit g
    → Accounted all (sender_at deadline g) × AcksFit (sender_at deadline g)
unfolding step
sender-Accounted all false g v h = step-Accounted all g sender_turn v h
sender-Accounted all true g v h = step-Accounted all g deadline_turn v h

sender-IsLive :
    (all : List ℕ) (deadline : Bool) (g : Gateway)
    → IsLive all g
    → IsLive all (sender_at deadline g)
      × Moves g (sender_at deadline g) ((deadline ≡ false) ⊎ (g.sender ≡ Sender.ended))
sender-IsLive all deadline g v =
    let (accounted, acks_fit) = sender-Accounted all deadline g v.accounted v.acks_fit in
    let (opened, device) =
      sender-IsOpen deadline g.sender g v.accounted.fits v.opened.flag_fits v.opened in
    (
      record { accounted = accounted; acks_fit = acks_fit; opened = opened },
      elim (sender-moves deadline g.sender g v.accounted.fits) [
        | inl less ↦ inl (omega (arith, less, ap device_work device))
        | inr stays ↦ inr stays
      ],
    )

device-IsLive :
    (all : List ℕ) (g : Gateway)
    → IsLive all g
    → IsLive all (device_at g)
      × Moves g (device_at g) ((g.transmission_finished ≡ false) ⊎ (g.device ≡ Device.ended))
unfolding step
device-IsLive all g v =
    let (accounted, acks_fit) = step-Accounted all g device_turn v.accounted v.acks_fit in
    (
      record {
        accounted = accounted;
        acks_fit = acks_fit;
        opened = device-IsOpen g.device g v.opened.closed_fits v.opened;
      },
      elim (device-moves g.device g) [
        | inl less ↦ inl (omega (arith, less, ap sender_work (device-sender g.device g)))
        | inr stays ↦ inr stays
      ],
    )

moves-le : (g g' : Gateway) (Stays : Type 0) → Moves g g' Stays → work g' ≤ work g
moves-le g g' Stays (inl less) = omega arith
moves-le g g' Stays (inr (same, _)) = omega (arith, ap work same)

-- When the sender has ended, the device stands still only at its own end.
all_done :
    (g : Gateway)
    → IsOpen g
    → g.sender ≡ Sender.ended
    → (g.transmission_finished ≡ false) ⊎ (g.device ≡ Device.ended)
    → work g ≡ 0
all_done g v e (inl unset) =
    let set : g.transmission_finished ≡ true =
      subst (λ p. FlagFits p g.transmission_finished) e v.flag_fits in
    cc
all_done g v e (inr ended) =
    let closed : ClosedFits Device.ended g.transmission_finished g.tx_queue =
      subst (λ d. ClosedFits d g.transmission_finished g.tx_queue) ended v.closed_fits in
    omega (arith, ap sender_work e, ap device_work ended, ap length closed.1)

moves_in_turn :
    (g g1 g2 g3 : Gateway)
    → work g1 ≤ work g
    → Moves g1 g2 ((true ≡ false) ⊎ (g1.sender ≡ Sender.ended))
    → IsOpen g2
    → Moves g2 g3 ((g2.transmission_finished ≡ false) ⊎ (g2.device ≡ Device.ended))
    → (work g3 < work g) ⊎ (work g3 ≡ 0)
moves_in_turn g g1 g2 g3 h (inl less) v m = inl (omega (arith, moves-le g2 g3 _ m))
moves_in_turn g g1 g2 g3 h (inr (same, inl never)) v m = cc
moves_in_turn g g1 g2 g3 h (inr (same, inr ended)) v (inl less) = inl (omega (arith, ap work same))
moves_in_turn g g1 g2 g3 h (inr (same, inr ended)) v (inr (same', stays)) =
    let nothing : work g2 ≡ 0 = all_done g2 v (ap (λ (g : Gateway). g.sender) same ∙ ended) stays in
    inr (omega (arith, ap work same'))

round-IsLive :
    (all : List ℕ) (g : Gateway)
    → IsLive all g
    → IsLive all (one_round g) × ((work (one_round g) < work g) ⊎ (work (one_round g) ≡ 0))
unfolding step
round-IsLive all g v =
    let (v1, m1) = sender-IsLive all false g v in
    let (v2, m2) = sender-IsLive all true (sender_at false g) v1 in
    let (v3, m3) = device-IsLive all (sender_at true (sender_at false g)) v2 in
    (
      v3,
      moves_in_turn g (sender_at false g) (sender_at true (sender_at false g)) _
          (moves-le g (sender_at false g) _ m1) m2 v2.opened m3,
    )

abbrev pub rounds : ℕ → List Turn
rounds zero = []
rounds (suc n) = sender_turn ∷ deadline_turn ∷ device_turn ∷ rounds n

rounds_end :
    (n : ℕ) (all : List ℕ) (g : Gateway)
    → IsLive all g
    → work g ≤ n
    → IsLive all (run g (rounds n)) × (work (run g (rounds n)) ≡ 0)
rounds_end zero all g v h = (v, omega arith)
rounds_end (suc n) all g v h =
    let (v', m) = round-IsLive all g v in rounds_end n all (one_round g) v' (fewer m)
  where
    fewer : ((work (one_round g) < work g) ⊎ (work (one_round g) ≡ 0)) → work (one_round g) ≤ n
    fewer (inl less) = omega arith
    fewer (inr none_left) = omega arith

no_sender_work : (p : Sender) → SenderFits p → sender_work p ≡ 0 → p ≡ Sender.ended
no_sender_work (Sender.next s rest) f e = absurd (omega arith)
no_sender_work (Sender.sends r rest) f e = absurd (omega arith)
no_sender_work (Sender.logs_send r rest) f e = absurd (omega arith)
no_sender_work (Sender.waits r rest) f e = absurd (omega arith)
no_sender_work (Sender.acknowledged r ack rest) f e = absurd (omega arith)
no_sender_work (Sender.timed_out r rest) f e = absurd (omega arith)
no_sender_work Sender.closes f e = absurd (omega arith)
no_sender_work Sender.logs_finished f e = absurd (omega arith)
no_sender_work Sender.ended f e = refl

no_device_work : (d : Device) → device_work d ≡ 0 → d ≡ Device.ended
no_device_work Device.waits e = absurd (omega arith)
no_device_work (Device.logs_received r) e = absurd (omega arith)
no_device_work Device.logs_loss e = absurd (omega arith)
no_device_work (Device.stores_ack r) e = absurd (omega arith)
no_device_work Device.logs_finished e = absurd (omega arith)
no_device_work Device.ended e = refl

no_queue : (queue : List PendingRequest) → 4 * length queue ≡ 0 → queue ≡ []
no_queue [] e = refl
no_queue (r ∷ rest) e = absurd (omega arith)

new_gateway-IsLive :
    (logger : LogManager) (inputs : List Bytes)
    → IsLive (due 0 inputs) (new_gateway logger inputs)
      × (work (new_gateway logger inputs) ≤ 18 * length inputs + 6)
unfolding new_gateway
new_gateway-IsLive logger inputs = (
  record {
    accounted = run-Accounted logger inputs [];
    acks_fit = tt;
    opened = record { flag_fits = refl; closed_fits = tt };
  },
  omega arith,
)

-- After eighteen rounds for each input and six more, in each of which the sender, its deadline and
-- the device have a turn, both threads have ended, and no request is left in the queue.
pub rounds-ended :
    (logger : LogManager) (inputs : List Bytes)
    → let g = run (new_gateway logger inputs) (rounds (18 * length inputs + 6)) in
      (g.sender ≡ Sender.ended) × (g.device ≡ Device.ended) × (g.tx_queue ≡ [])
rounds-ended logger inputs =
    let (start, enough) = new_gateway-IsLive logger inputs in
    let (v, e) =
      rounds_end (18 * length inputs + 6) (due 0 inputs) (new_gateway logger inputs) start enough in
    let g = run (new_gateway logger inputs) (rounds (18 * length inputs + 6)) in
    (
      no_sender_work g.sender v.accounted.fits (omega (arith, e)),
      no_device_work g.device (omega (arith, e)),
      no_queue g.tx_queue (omega (arith, e)),
    )
