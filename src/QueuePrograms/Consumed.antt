-- ===== src/QueuePrograms/Consumed.antt =====
-- What the consumers of the programs have done when the threads have ended.
use linux_iot_gateway.Common.{
  ℕ, zero, suc, ◌+◌, ◌*◌, List, [], ◌∷◌, ◌++◌, ◌≡◌, refl, ap, sym, ◌∙◌, arith, Bytes, length,
  append_assoc, append-nil,
}
use linux_iot_gateway.ThreadSafeQueue.Threads.{Client, new_machine, run}
use linux_iot_gateway.ThreadSafeQueue.Order.{Observes, in_turn}
use linux_iot_gateway.ThreadSafeQueue.Progress.{Ended, rounds, rounds-consumed}
use linux_iot_gateway.QueuePrograms.{
  Line, produced, consumed, producer_finished, consumer_exit, numbers_from, number_client,
  command_client, sample_of, samples_from, Processor, process_line, process, sample_client,
  new_processor,
}

-- The items whose consumption has been printed.
abbrev pub consumed_in : {T : Type 0} → List (Line T) → List T
consumed_in [] = []
consumed_in (consumed item ∷ lines) = item ∷ consumed_in lines
consumed_in (_ ∷ lines) = consumed_in lines

consumed_in-append :
    {T : Type 0} (xs ys : List (Line T)) → consumed_in (xs ++ ys) ≡ consumed_in xs ++ consumed_in ys
consumed_in-append [] ys = refl
consumed_in-append (consumed item ∷ xs) ys = ap (◌∷◌ item) (consumed_in-append xs ys)
consumed_in-append (produced item ∷ xs) ys = consumed_in-append xs ys
consumed_in-append (producer_finished ∷ xs) ys = consumed_in-append xs ys
consumed_in-append (consumer_exit ∷ xs) ys = consumed_in-append xs ys

-- A line of another kind does not show.
hidden :
    {T : Type 0} (line : Line T) (output : List (Line T))
    → consumed_in (line ∷ []) ≡ []
    → consumed_in (output ++ line ∷ []) ≡ consumed_in output
hidden line output e =
    consumed_in-append output (line ∷ [])
    ∙ ap (◌++◌ (consumed_in output)) e
    ∙ append-nil (consumed_in output)

abbrev pub add : {T : Type 0} → T → List T → List T
add item items = items ++ item ∷ []

in_turn-add : {T : Type 0} (items done : List T) → in_turn add items done ≡ done ++ items
in_turn-add [] done = sym (append-nil done)
in_turn-add (item ∷ items) done =
    in_turn-add items (done ++ item ∷ []) ∙ append_assoc done (item ∷ []) items

pub number_client-Observes : Observes number_client consumed_in add
unfolding number_client
number_client-Observes = record {
  pushing_hidden = λ item s. refl;
  pushed_hidden = λ item s. hidden (produced item) s refl;
  stopped_hidden = λ s. refl;
  consumed = λ item s. consumed_in-append s (consumed item ∷ []);
  closed_hidden = λ s. hidden consumer_exit s refl;
}

command_client-Observes : Observes command_client consumed_in add
unfolding command_client
command_client-Observes = record {
  pushing_hidden = λ item s. hidden (produced item) s refl;
  pushed_hidden = λ item s. refl;
  stopped_hidden = λ s. hidden producer_finished s refl;
  consumed = λ item s. consumed_in-append s (consumed item ∷ []);
  closed_hidden = λ s. hidden consumer_exit s refl;
}

sample_client-Observes : Observes sample_client (λ p. p) process
sample_client-Observes = record {
  pushing_hidden = λ item s. refl;
  pushed_hidden = λ item s. refl;
  stopped_hidden = λ s. refl;
  consumed = λ item s. refl;
  closed_hidden = λ s. refl;
}

-- A client that prints the items it consumes has printed all of them, in order, when the threads
-- have ended.
rounds-add :
    {T : Type 0} (client : Client T (List (Line T)))
    → Observes client consumed_in add
    → (items : List T)
    → let m = run client (new_machine items []) (rounds (4 * length items + 5)) in
      Ended client m × (consumed_in m.shared ≡ items)
rounds-add client laws items =
    let (ended, shows) = rounds-consumed client consumed_in add laws items [] in
    (ended, shows ∙ in_turn-add items [])

-- After four rounds for each number and five more, in each of which both threads have a turn, the
-- producer of numbers and its consumer have ended, and the consumer has printed each number once, in
-- order.
pub rounds-numbers :
    (count : ℕ)
    → let items = numbers_from 1 count in
      let m = run number_client (new_machine items []) (rounds (4 * length items + 5)) in
      Ended number_client m × (consumed_in m.shared ≡ items)
rounds-numbers count = rounds-add number_client number_client-Observes (numbers_from 1 count)

-- After four rounds for each command and five more, in each of which both threads have a turn, the
-- producer of commands and its consumer have ended, and the consumer has printed each command once,
-- in order.
pub rounds-commands :
    (commands : List Bytes)
    → let m = run command_client (new_machine commands []) (rounds (4 * length commands + 5)) in
      Ended command_client m × (consumed_in m.shared ≡ commands)
rounds-commands commands = rounds-add command_client command_client-Observes commands

-- The lines of the samples from an index on, when so many have been processed before.
abbrev pub process_lines : ℕ → ℕ → ℕ → List Bytes
process_lines done index zero = []
process_lines done index (suc count) =
    process_line (sample_of index) (suc done) ∷ process_lines (suc done) (suc index) count

in_turn-process :
    (count index : ℕ) (p : Processor)
    → let p' = in_turn process (samples_from index count) p in
      (p'.process_count ≡ count + p.process_count)
      × (p'.output ≡ p.output ++ process_lines p.process_count index count)
unfolding samples_from process
in_turn-process zero index p = (omega arith, sym (append-nil p.output))
in_turn-process (suc count) index p =
    let (counts, prints) = in_turn-process count (suc index) (process (sample_of index) p) in
    (counts ∙ omega arith, prints ∙ append_assoc p.output _ _)

-- After four rounds for each sample and five more, in each of which both threads have a turn, the
-- two tasks have ended; `processed_count` is the number of the samples, and each has been printed
-- once, in order and with its number.
pub rounds-samples :
    (count : ℕ)
    → let items = samples_from 1 count in
      let m = run sample_client (new_machine items new_processor) (rounds (4 * length items + 5)) in
      Ended sample_client m
      × (m.shared.process_count ≡ count)
      × (m.shared.output ≡ process_lines 0 1 count)
rounds-samples count =
    let (ended, shows) =
      rounds-consumed sample_client (λ p. p) process sample_client-Observes (samples_from 1 count)
        new_processor in
    let (counts, prints) = in_turn-process count 1 new_processor in
    (
      ended,
      ap (λ (p : Processor). p.process_count) shows ∙ counts ∙ omega arith,
      ap (λ (p : Processor). p.output) shows ∙ prints,
    )
