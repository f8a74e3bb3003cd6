-- ===== src/QueuePrograms.antt =====
-- Small programs of a producer and a consumer over one queue: practice/day01/thread_safe_queue.cpp
-- (main), cpp_modules/interview_practice/day28_producer_consumer.cpp and
-- cpp_modules/producer_consumer_demo/main.cpp. Each is its producer's items and what its two threads
-- do around the queue. The sleeps, and what main prints before and behind, are left out.
pub mod Consumed
use linux_iot_gateway.Common.{ℕ, zero, suc, ◌+◌, ◌≤◌, List, [], ◌∷◌, ◌++◌, Bytes, codes}
use linux_iot_gateway.Common.Decimal.{to_string}
use linux_iot_gateway.ThreadSafeQueue.Threads.{Client}

-- A line that is printed.
pub data Line (T : Type 0) : Type 0 where
  produced : T → Line T
  consumed : T → Line T
  producer_finished : Line T
  consumer_exit : Line T

abbrev put : {T : Type 0} → Line T → List (Line T) → List (Line T)
put line output = output ++ line ∷ []

-- `for (int i = first; count are left; ++i)`.
unfoldable pub numbers_from : ℕ → ℕ → List ℕ
numbers_from i zero = []
numbers_from i (suc count) = i ∷ numbers_from (suc i) count

-- practice/day01/thread_safe_queue.cpp: the numbers from 1 to 5.
abbrev pub numbers : List ℕ
numbers = numbers_from 1 5

unfoldable pub number_line : Line ℕ → Bytes
number_line (produced i) = codes "produce: " ++ to_string i ++ b'\n' ∷ []
number_line (consumed i) = codes "consume: " ++ to_string i ++ b'\n' ∷ []
number_line producer_finished = []
number_line consumer_exit = codes "consumer exit\n"

unfoldable pub number_client : Client ℕ (List (Line ℕ))
number_client = record {
  while_pushing = λ i output. output;
  when_pushed = λ i. put (produced i);
  when_stopped = λ output. output;
  consume = λ i. put (consumed i);
  when_closed = put consumer_exit;
}

-- cpp_modules/interview_practice/day28_producer_consumer.cpp.
abbrev pub commands : List Bytes
commands = codes "OPEN" ∷ codes "GRAB" ∷ codes "RELEASE" ∷ codes "STOP" ∷ codes "OPEN" ∷ []

unfoldable pub command_line : Line Bytes → Bytes
command_line (produced command) = codes "[PRODUCER] push: " ++ command ++ b'\n' ∷ []
command_line (consumed command) = codes "[CONSUMER] process: " ++ command ++ b'\n' ∷ []
command_line producer_finished = codes "[PRODUCER] finished\n"
command_line consumer_exit = codes "[CONSUMER] exit\n"

-- The line of a push is printed under the lock.
unfoldable pub command_client : Client Bytes (List (Line Bytes))
command_client = record {
  while_pushing = λ command. put (produced command);
  when_pushed = λ command output. output;
  when_stopped = put producer_finished;
  consume = λ command. put (consumed command);
  when_closed = put consumer_exit;
}

-- cpp_modules/producer_consumer_demo/main.cpp.
pub record SensorSample : Type 0 where
  pub sequence : ℕ
  pub temperature : ℕ
  pub humidity : ℕ

abbrev pub total_samples : ℕ
total_samples = 5

abbrev pub sample_of : ℕ → SensorSample
sample_of index = record { sequence = index; temperature = 20 + index; humidity = 50 + index }

-- The samples of `collectTask`, from an index on.
unfoldable pub samples_from : ℕ → ℕ → List SensorSample
samples_from index zero = []
samples_from index (suc count) = sample_of index ∷ samples_from (suc index) count

pub record Processor : Type 0 where
  pub process_count : ℕ
  pub output : List Bytes

abbrev pub new_processor : Processor
new_processor = record { process_count = 0; output = [] }

abbrev pub process_line : SensorSample → ℕ → Bytes
process_line sample process_count =
    codes "[PROCESS]sequence="
    ++ to_string sample.sequence
    ++ codes "temperature="
    ++ to_string sample.temperature
    ++ codes "humidity="
    ++ to_string sample.humidity
    ++ codes "processed_count="
    ++ to_string process_count
    ++ b'\n' ∷ []

-- The body of the loop of `processTask` behind `lock.unlock()`.
unfoldable pub process : SensorSample → Processor → Processor
process sample p = record {
  process_count = suc p.process_count;
  output = p.output ++ process_line sample (suc p.process_count) ∷ [];
}

abbrev pub sample_client : Client SensorSample Processor
sample_client = record {
  while_pushing = λ sample p. p;
  when_pushed = λ sample p. p;
  when_stopped = λ p. p;
  consume = process;
  when_closed = λ p. p;
}
