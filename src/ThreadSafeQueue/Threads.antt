-- ===== src/ThreadSafeQueue/Threads.antt =====
-- A producer that pushes its items and stops the queue, and a consumer that pops until it is closed.
use linux_iot_gateway.Common.{List, [], ◌∷◌}
use linux_iot_gateway.ThreadSafeQueue.{
  ThreadSafeQueue, Popped, waiting, closed, value, new_queue, push, wait_and_pop, stop,
}

-- What the two threads do to what they share besides the queue: under the lock of a push, behind
-- it, behind the stop, with an item, and behind the consumer's loop.
pub record Client (T S : Type 0) : Type 0 where
  pub while_pushing : T → S → S
  pub when_pushed : T → S → S
  pub when_stopped : S → S
  pub consume : T → S → S
  pub when_closed : S → S

-- Where the producer is.
pub data Producer (T : Type 0) : Type 0 where
  pushes : List T → Producer T
  has_pushed : T → List T → Producer T
  leaves : Producer T
  ended : Producer T

-- Where the consumer is.
pub data Consumer (T : Type 0) : Type 0 where
  pops : Consumer T
  holds : T → Consumer T
  leaves : Consumer T
  ended : Consumer T

pub record Machine (T S : Type 0) : Type 0 where
  pub buffer : ThreadSafeQueue T
  pub producer : Producer T
  pub consumer : Consumer T
  pub shared : S

-- The threads take turns in any order.
pub data Turn : Type 0 where
  producer_turn consumer_turn : Turn

module _ {T S : Type 0} (client : Client T S) where
  unfoldable pub producer_step : Producer T → Machine T S → Machine T S
  producer_step (pushes (item ∷ items)) m = record m {
    buffer = push item m.buffer;
    shared = client.while_pushing item m.shared;
    producer = has_pushed item items;
  }
  producer_step (pushes []) m = record m { buffer = stop m.buffer; producer = Producer.leaves }
  producer_step (has_pushed item items) m = record m {
    shared = client.when_pushed item m.shared;
    producer = pushes items;
  }
  producer_step Producer.leaves m = record m {
    shared = client.when_stopped m.shared;
    producer = Producer.ended;
  }
  producer_step Producer.ended m = m

  unfoldable pub popped : ThreadSafeQueue T × Popped T → Machine T S → Machine T S
  popped (buffer, waiting) m = m
  popped (buffer, closed) m = record m { consumer = Consumer.leaves }
  popped (buffer, value item) m = record m { buffer = buffer; consumer = holds item }

  unfoldable pub consumer_step : Consumer T → Machine T S → Machine T S
  unfolding popped
  consumer_step pops m = popped (wait_and_pop m.buffer) m
  consumer_step (holds item) m = record m { shared = client.consume item m.shared; consumer = pops }
  consumer_step Consumer.leaves m = record m {
    shared = client.when_closed m.shared;
    consumer = Consumer.ended;
  }
  consumer_step Consumer.ended m = m

  unfoldable pub step : Machine T S → Turn → Machine T S
  step m producer_turn = producer_step m.producer m
  step m consumer_turn = consumer_step m.consumer m

  abbrev pub run : Machine T S → List Turn → Machine T S
  run m [] = m
  run m (t ∷ ts) = run (step m t) ts

unfoldable pub new_machine : {T S : Type 0} → List T → S → Machine T S
new_machine items shared = record {
  buffer = new_queue;
  producer = pushes items;
  consumer = pops;
  shared = shared;
}
