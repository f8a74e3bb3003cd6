-- ===== src/RingBuffer/Queue.antt =====
-- What the ring promises: a queue of at most seven bytes, first in, first out.
use linux_iot_gateway.Common.{
  true, false, List, [], ◌∷◌, ◌++◌, none, some, Bytes, ◌==◌, if◌then◌else◌, length,
}
use linux_iot_gateway.RingBuffer.{Call, Answer, push, pop, pushed, popped}

abbrev pub queue_call : Call → Bytes → Bytes × Answer
queue_call (push value) queue =
    if length queue == 7 then (queue, pushed false) else (queue ++ value ∷ [], pushed true)
queue_call (pop true) queue = (queue, popped none)
queue_call (pop false) [] = ([], popped none)
queue_call (pop false) (value ∷ queue) = (queue, popped (some value))

abbrev pub queue_answers : List Call → Bytes → List Answer
queue_answers [] queue = []
queue_answers (c ∷ cs) queue =
    let (queue', answer) = queue_call c queue in answer ∷ queue_answers cs queue'
