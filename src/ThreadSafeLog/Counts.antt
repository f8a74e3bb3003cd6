-- ===== src/ThreadSafeLog/Counts.antt =====
-- The counters of the log when the workers have ended.
use linux_iot_gateway.Common.{
  ℕ, suc, ◌+◌, ◌≤◌, ◌<◌, ◌==◌, Bool, true, false, List, [], ◌∷◌, Bytes, leb, leb→le, if◌then◌else◌,
  ◌≡◌, ◌⊎◌, refl, subst, ap, ◌∙◌, arith, inl, inr,
}
use linux_iot_gateway.LogManager
use linux_iot_gateway.LogManager.{
  LogManager, LogLevel, info, warning, error, level_key, get_log_count,
}
use linux_iot_gateway.LogManager.History.{get_log_count-log}
use linux_iot_gateway.ThreadSafeLog.{
  Worker, message_of, write_logs, Demo, Turn, collector_turn, processor_turn, step, run, set_up,
  new_demo,
}

abbrev pub turns_of : Turn → List Turn → ℕ
turns_of t [] = 0
turns_of collector_turn (collector_turn ∷ ts) = suc (turns_of collector_turn ts)
turns_of processor_turn (processor_turn ∷ ts) = suc (turns_of processor_turn ts)
turns_of t (_ ∷ ts) = turns_of t ts

-- The counters behind a line at a level.
abbrev Logged : LogLevel → LogManager → LogManager → Type 0
Logged k l l' =
    (level : LogLevel)
    → get_log_count l' level ≡ (
        if level_key k == level_key level
        then suc (get_log_count l level)
        else get_log_count l level)

-- A turn of a worker at a level: it logs a line and counts it, or it has ended.
abbrev Writes : LogLevel → Worker → LogManager → Worker × LogManager → Type 0
Writes k w l result =
    (result.0.level ≡ k)
    × (((w.index ≤ 5) × (result.0.index ≡ suc w.index) × Logged k l result.1)
        ⊎ ((5 < w.index) × (result.0.index ≡ w.index) × (result.1 ≡ l)))

write_logs-Writes :
    (k : LogLevel) (w : Worker) (l : LogManager) → w.level ≡ k → Writes k w l (write_logs w l)
unfolding write_logs
write_logs-Writes k w l e = by_limit (leb w.index 5) refl
  where
    by_limit :
        (b : Bool)
        → leb w.index 5 ≡ b
        → Writes k w l (
            if b
            then (record w { index = suc w.index }, (LogManager.log l w.level (message_of w)).0)
            else (w, l))
    by_limit true fits = (
      e,
      inl (
        leb→le w.index 5 fits,
        refl,
        subst (λ j. Logged j l (LogManager.log l w.level (message_of w)).0) e
            (get_log_count-log l w.level (message_of w)),
      ),
    )
    by_limit false over = (e, inr (ground (arith, over), refl, refl))

module _ (infos warnings errors : ℕ) where
  -- The counters by the rounds of the workers, on top of so many lines.
  pub record IsCounted (d : Demo) : Type 0 where
    pub collects : d.collector.level ≡ info
    pub processes : d.processor.level ≡ warning
    pub collector_in : d.collector.index ≤ 6
    pub processor_in : d.processor.index ≤ 6
    pub info_count : get_log_count d.logger info + 1 ≡ infos + d.collector.index
    pub warning_count : get_log_count d.logger warning + 1 ≡ warnings + d.processor.index
    pub error_count : get_log_count d.logger error ≡ errors

  -- The indices behind a turn.
  abbrev Moves : ℕ → ℕ → Type 0
  Moves index index' = (index' ≡ suc index) ⊎ ((5 < index) × (index' ≡ index))

  collector-IsCounted :
      (d : Demo)
      → IsCounted d
      → IsCounted (step d collector_turn)
        × Moves d.collector.index (step d collector_turn).collector.index
        × ((step d collector_turn).processor.index ≡ d.processor.index)
  unfolding step
  collector-IsCounted d v =
      let (lvl, turn) = write_logs-Writes info d.collector d.logger v.collects in
      elim turn [
        | inl (fits, next, counts) ↦ (
          record {
            collects = lvl;
            processes = v.processes;
            collector_in = omega arith;
            processor_in = v.processor_in;
            info_count = omega (arith, counts info, v.info_count);
            warning_count = ap (λ n. n + 1) (counts warning) ∙ v.warning_count;
            error_count = counts error ∙ v.error_count;
          },
          inl next,
          refl,
        )
        | inr (over, next, same) ↦ (
          record {
            collects = lvl;
            processes = v.processes;
            collector_in = omega (arith, v.collector_in);
            processor_in = v.processor_in;
            info_count = omega (arith, ap (λ l. get_log_count l info) same, v.info_count);
            warning_count = ap (λ l. get_log_count l warning + 1) same ∙ v.warning_count;
            error_count = ap (λ l. get_log_count l error) same ∙ v.error_count;
          },
          inr (over, next),
          refl,
        )
      ]

  processor-IsCounted :
      (d : Demo)
      → IsCounted d
      → IsCounted (step d processor_turn)
        × Moves d.processor.index (step d processor_turn).processor.index
        × ((step d processor_turn).collector.index ≡ d.collector.index)
  unfolding step
  processor-IsCounted d v =
      let (lvl, turn) = write_logs-Writes warning d.processor d.logger v.processes in
      elim turn [
        | inl (fits, next, counts) ↦ (
          record {
            collects = v.collects;
            processes = lvl;
            collector_in = v.collector_in;
            processor_in = omega arith;
            info_count = ap (λ n. n + 1) (counts info) ∙ v.info_count;
            warning_count = omega (arith, counts warning, v.warning_count);
            error_count = counts error ∙ v.error_count;
          },
          inl next,
          refl,
        )
        | inr (over, next, same) ↦ (
          record {
            collects = v.collects;
            processes = lvl;
            collector_in = v.collector_in;
            processor_in = omega (arith, v.processor_in);
            info_count = ap (λ l. get_log_count l info + 1) same ∙ v.info_count;
            warning_count = omega (arith, ap (λ l. get_log_count l warning) same, v.warning_count);
            error_count = ap (λ l. get_log_count l error) same ∙ v.error_count;
          },
          inr (over, next),
          refl,
        )
      ]

  -- What the counters are when both workers have had the turns that they need.
  abbrev pub Totals : LogManager → Type 0
  Totals l =
      (get_log_count l info ≡ infos + 5)
      × (get_log_count l warning ≡ warnings + 5)
      × (get_log_count l error ≡ errors)

  run-Totals :
      (ts : List Turn) (d : Demo)
      → IsCounted d
      → 6 ≤ d.collector.index + turns_of collector_turn ts
      → 6 ≤ d.processor.index + turns_of processor_turn ts
      → Totals (run d ts).logger
  run-Totals [] d v h h' = (
    omega (arith, v.info_count, v.collector_in),
    omega (arith, v.warning_count, v.processor_in),
    v.error_count,
  )
  run-Totals (collector_turn ∷ ts) d v h h' =
      let (v', moves, stays) = collector-IsCounted d v in
      run-Totals ts (step d collector_turn) v' (omega (arith, moves)) (omega (arith, stays))
  run-Totals (processor_turn ∷ ts) d v h h' =
      let (v', moves, stays) = processor-IsCounted d v in
      run-Totals ts (step d processor_turn) v' (omega (arith, stays)) (omega (arith, moves))

-- In whatever order the two workers take turns, once each has had five, the log counts five more
-- lines at INFO and five more at WARNING than before, and as many at ERROR.
pub run-log_counts :
    (l : LogManager) (id id' : Bytes) (ts : List Turn)
    → 5 ≤ turns_of collector_turn ts
    → 5 ≤ turns_of processor_turn ts
    → Totals
        (get_log_count l info)
        (get_log_count l warning)
        (get_log_count l error)
        (run (new_demo l id id') ts).logger
unfolding new_demo set_up LogManager.set_console_enabled LogManager.set_auto_flush
    LogManager.set_max_cached_logs LogManager.get_log_count
run-log_counts l id id' ts h h' =
    run-Totals (get_log_count l info) (get_log_count l warning) (get_log_count l error) ts
      (new_demo l id id')
      (record {
        collects = refl;
        processes = refl;
        collector_in = omega arith;
        processor_in = omega arith;
        info_count = refl;
        warning_count = refl;
        error_count = refl;
      })
      (omega arith) (omega arith)
