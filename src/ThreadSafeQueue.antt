-- ===== src/ThreadSafeQueue.antt =====
-- practice/day01/thread_safe_queue.cpp: `ThreadSafeQueue`, and a producer and a consumer over one.
-- The same threads stand in other programs, with the queue, its mutex and its flag as variables.
pub mod Threads
pub mod Order
pub mod Progress
use linux_iot_gateway.Common.{Bool, true, false, List, [], ◌∷◌, ◌++◌, if◌then◌else◌}

-- Each method holds the mutex for all of its body.
pub record ThreadSafeQueue (T : Type 0) : Type 0 where
  pub queue : List T
  pub stopped : Bool

-- What a call of `wait_and_pop` comes to when it looks at the queue: it goes on waiting, it returns
-- false, or it returns true with a value.
pub data Popped (T : Type 0) : Type 0 where
  waiting : Popped T
  closed : Popped T
  value : T → Popped T

abbrev pub new_queue : {T : Type 0} → ThreadSafeQueue T
new_queue = record { queue = []; stopped = false }

module _ {T : Type 0} where
  unfoldable pub push : T → ThreadSafeQueue T → ThreadSafeQueue T
  push item q = record q { queue = q.queue ++ item ∷ [] }

  unfoldable pub pop_front : List T → ThreadSafeQueue T → ThreadSafeQueue T × Popped T
  pop_front [] q = (q, if q.stopped then closed else waiting)
  pop_front (item ∷ rest) q = (record q { queue = rest }, value item)

  unfoldable pub wait_and_pop : ThreadSafeQueue T → ThreadSafeQueue T × Popped T
  unfolding pop_front
  wait_and_pop q = pop_front q.queue q

  unfoldable pub stop : ThreadSafeQueue T → ThreadSafeQueue T
  stop q = record q { stopped = true }
