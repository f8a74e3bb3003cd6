-- ===== src/GatewayTimeout/Settled.antt =====
-- What is counted and put out when the sender has ended.
use linux_iot_gateway.Common.{
  ℕ, suc, ◌+◌, ◌*◌, ◌≤◌, List, [], ◌∷◌, ◌++◌, Bytes, ◌≡◌, sym, ap, ◌∙◌, arith, length, append-nil,
}
use linux_iot_gateway.LogManager.{LogManager}
use linux_iot_gateway.GatewayTimeout.{Gateway, Sender, max_retries, new_gateway}
use linux_iot_gateway.GatewayTimeout.Schedule.{
  Turn, run, due, Outcome, acked_after, failed, numbers, report, total, acked_of, failed_of,
  retries_of,
}
use linux_iot_gateway.GatewayTimeout.Accounts.{AllWithin, left, lines_now, retries_now, open_now}
use linux_iot_gateway.GatewayTimeout.SenderTurns.{Accounted}
use linux_iot_gateway.GatewayTimeout.Outcomes.{run-Accounted}

-- Every request has had its outcome.
pub record IsSettled (all : List ℕ) (g : Gateway) : Type 0 where
  pub results : List (ℕ × Outcome)
  pub within : AllWithin results
  pub settles : numbers results ≡ all
  pub prints : g.printed ≡ report results
  pub fails : g.stats.failed ≡ total failed_of results
  pub retried : g.stats.retries ≡ total retries_of results
  pub timed : g.stats.timeouts ≡ g.stats.retries + g.stats.failed
  pub sent : g.stats.sent_frames ≡ g.stats.acked + g.stats.timeouts
  pub shared : g.stats.acked + g.stats.failed ≡ length all
  pub bounded : g.stats.sent_frames ≤ suc max_retries * length all

outcome_totals :
    (rs : List (ℕ × Outcome))
    → AllWithin rs
    → (total acked_of rs + total failed_of rs ≡ length (numbers rs))
      × (total retries_of rs ≤ max_retries * length (numbers rs))
outcome_totals [] w = omega arith
outcome_totals ((k, acked_after n) ∷ rs) w = omega (arith, outcome_totals rs w.1)
outcome_totals ((k, failed) ∷ rs) w = omega (arith, outcome_totals rs w.1)

IsSettled-at_end :
    (all : List ℕ) (g : Gateway) → Accounted all g → g.sender ≡ Sender.ended → IsSettled all g
IsSettled-at_end all g v e =
    let (count, most) = outcome_totals v.results v.within in
    record {
      results = v.results;
      within = v.within;
      settles = settles;
      prints =
          v.prints ∙ ap (λ p. report v.results ++ lines_now p) e ∙ append-nil (report v.results);
      fails = v.fails;
      retried = omega (arith, v.retried, ap retries_now e);
      timed = v.timed;
      sent = omega (arith, v.sent, ap open_now e);
      shared = omega (arith, v.acks, v.fails, count, ap length settles);
      bounded = omega (
        arith,
        v.sent,
        v.timed,
        v.acks,
        v.fails,
        v.retried,
        ap retries_now e,
        ap open_now e,
        count,
        most,
        ap length settles,
      );
    }
  where
    settles : numbers v.results ≡ all
    settles =
        sym (v.splits ∙ ap (λ p. numbers v.results ++ left p) e ∙ append-nil (numbers v.results))

-- In whatever order the threads and the deadlines have come, when the sender has ended every valid
-- command is acknowledged or failed, and the lines put out and the counters are those of these
-- outcomes: as many frames as ACKs and timeouts, a timeout for each retry and each failure, and at
-- most two frames for each command.
pub run-IsSettled :
    (logger : LogManager) (inputs : List Bytes) (ts : List Turn)
    → (run (new_gateway logger inputs) ts).sender ≡ Sender.ended
    → IsSettled (due 0 inputs) (run (new_gateway logger inputs) ts)
run-IsSettled logger inputs ts e =
    IsSettled-at_end (due 0 inputs) (run (new_gateway logger inputs) ts)
      (run-Accounted logger inputs ts) e
