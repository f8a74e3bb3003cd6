-- ===== src/Examples/RingRuns.antt =====
-- The three pushes of `main`, popped, with one pop too many.
use linux_iot_gateway.Common.{true, false, [], ◌∷◌, List, some, none, ◌≡◌, refl}
use linux_iot_gateway.RingBuffer.{Call, push, pop, pushed, popped, call, answers, new_ring}
use linux_iot_gateway.RingBuffer.Queue.{queue_answers}
use linux_iot_gateway.RingBuffer.Refine.{answers-queue_answers}

abbrev calls : List Call
calls =
    push 0x11
    ∷ push 0x22
    ∷ push 0x33
    ∷ pop true
    ∷ pop false
    ∷ pop false
    ∷ pop false
    ∷ pop false
    ∷ []

answers-queue_answers_example : answers calls new_ring ≡ queue_answers calls []
answers-queue_answers_example = answers-queue_answers calls

in_order :
    answers calls new_ring
    ≡ pushed true
      ∷ pushed true
      ∷ pushed true
      ∷ popped none
      ∷ popped (some 0x11)
      ∷ popped (some 0x22)
      ∷ popped (some 0x33)
      ∷ popped none
      ∷ []
unfolding call
in_order = refl
