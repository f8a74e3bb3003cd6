-- ===== src/GatewayPipeline/Counts.antt =====
-- What the pipeline has counted when its threads have ended.
use linux_iot_gateway.Common.{
  ℕ, suc, ◌+◌, ◌*◌, ◌==◌, Bool, List, [], ◌∷◌, ◌≡◌, refl, ap, ◌∙◌, arith, Bytes, if◌then◌else◌,
  Bool-cases, inl, inr, length,
}
use linux_iot_gateway.ProtocolParser
use linux_iot_gateway.LogManager
use linux_iot_gateway.LogManager.{LogManager, LogLevel, info, warning, get_log_count}
use linux_iot_gateway.LogManager.History.{get_log_count-log}
use linux_iot_gateway.ThreadSafeQueue.Threads.{run}
use linux_iot_gateway.ThreadSafeQueue.Order.{Observes, in_turn}
use linux_iot_gateway.ThreadSafeQueue.Progress.{Ended, rounds, rounds-consumed}
use linux_iot_gateway.GatewayPipeline.{
  Gateway, count_input, log_queued, log_producer_finished, handle, log_consumer_finished, client,
  set_up, new_gateway,
}

abbrev is_accepted : Bytes → Bool
is_accepted raw_input = ProtocolParser.is_valid (ProtocolParser.parse raw_input)

-- The inputs that are commands, and those that are not.
abbrev pub valid_inputs : List Bytes → ℕ
valid_inputs [] = 0
valid_inputs (raw_input ∷ rest) =
    if is_accepted raw_input then suc (valid_inputs rest) else valid_inputs rest

abbrev pub invalid_inputs : List Bytes → ℕ
invalid_inputs [] = 0
invalid_inputs (raw_input ∷ rest) =
    if is_accepted raw_input then invalid_inputs rest else suc (invalid_inputs rest)

-- The counters of `stats` and the one of the warnings.
pub record Counters : Type 0 where
  pub accepted : ℕ
  pub rejected : ℕ
  pub warnings : ℕ

abbrev pub counters : Gateway → Counters
counters g = record {
  accepted = g.stats.accepted;
  rejected = g.stats.rejected;
  warnings = get_log_count g.logger warning;
}

abbrev count : Bytes → Counters → Counters
count raw_input c =
    if is_accepted raw_input
    then record c { accepted = suc c.accepted }
    else record c { rejected = suc c.rejected; warnings = suc c.warnings }

abbrev counters_with : ℕ → ℕ → ℕ → Counters
counters_with a r w = record { accepted = a; rejected = r; warnings = w }

-- A line at a level counts as a warning if it is one.
same_warnings :
    (a r : ℕ) (g : Gateway) (k : LogLevel) (message : Bytes)
    → counters_with a r (get_log_count (LogManager.log g.logger k message).0 warning)
      ≡ counters_with a r (
          if LogManager.level_key k == 1
          then suc (get_log_count g.logger warning)
          else get_log_count g.logger warning)
same_warnings a r g k message =
    ap (counters_with a r) (get_log_count-log g.logger k message warning)

handle-counters :
    (raw_input : Bytes) (g : Gateway) → counters (handle raw_input g) ≡ count raw_input (counters g)
unfolding handle
handle-counters raw_input g = elim (Bool-cases (is_accepted raw_input)) [
  | inl good ↦ rw good (same_warnings (suc g.stats.accepted) g.stats.rejected g info _)
  | inr bad ↦ rw bad (same_warnings g.stats.accepted (suc g.stats.rejected) g warning _)
]

client-Observes : Observes client counters count
unfolding count_input log_queued log_producer_finished log_consumer_finished
client-Observes = record {
  pushing_hidden = λ item s. refl;
  pushed_hidden = λ item s. same_warnings s.stats.accepted s.stats.rejected s info _;
  stopped_hidden = λ s. same_warnings s.stats.accepted s.stats.rejected s info _;
  consumed = handle-counters;
  closed_hidden = λ s. same_warnings s.stats.accepted s.stats.rejected s info _;
}

counters_eq :
    {a a' r r' w w' : ℕ} → a ≡ a' → r ≡ r' → w ≡ w' → counters_with a r w ≡ counters_with a' r' w'
counters_eq e f g = cc

in_turn-count :
    (inputs : List Bytes) (a r w : ℕ)
    → in_turn count inputs (counters_with a r w)
      ≡ counters_with
          (a + valid_inputs inputs)
          (r + invalid_inputs inputs)
          (w + invalid_inputs inputs)
in_turn-count [] a r w = counters_eq (omega arith) (omega arith) (omega arith)
in_turn-count (raw_input ∷ rest) a r w = elim (Bool-cases (is_accepted raw_input)) [
  | inl good ↦ rw good (in_turn-count rest (suc a) r w ∙ counters_eq (omega arith) refl refl)
  | inr bad ↦
      rw bad (in_turn-count rest a (suc r) (suc w) ∙ counters_eq refl (omega arith) (omega arith))
]

-- After four rounds for each input and five more, in each of which both threads have a turn, both
-- threads have ended; the inputs that are commands have been counted as accepted, the others as
-- rejected, and the log has counted one warning for each of the others.
pub rounds-counters :
    (l : LogManager) (inputs : List Bytes)
    → let m = run client (new_gateway l inputs) (rounds (4 * length inputs + 5)) in
      Ended client m
      × (m.shared.stats.accepted ≡ valid_inputs inputs)
      × (m.shared.stats.rejected ≡ invalid_inputs inputs)
      × (get_log_count m.shared.logger warning ≡ get_log_count l warning + invalid_inputs inputs)
unfolding new_gateway set_up LogManager.set_console_enabled LogManager.set_auto_flush
    LogManager.set_max_cached_logs LogManager.get_log_count
rounds-counters l inputs =
    let (ended, shows) = rounds-consumed client counters count client-Observes inputs _ in
    let all = shows ∙ in_turn-count inputs 0 0 (get_log_count l warning) in
    (
      ended,
      ap (λ (c : Counters). c.accepted) all ∙ omega arith,
      ap (λ (c : Counters). c.rejected) all ∙ omega arith,
      ap (λ (c : Counters). c.warnings) all,
    )
