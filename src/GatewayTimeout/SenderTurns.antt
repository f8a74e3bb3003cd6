-- ===== src/GatewayTimeout/SenderTurns.antt =====
-- The turns of the sender keep its account.
use linux_iot_gateway.Common.{
  ℕ, suc, ◌+◌, ◌-◌, ◌%◌, ◌^◌, Bool, true, false, List, [], ◌∷◌, ◌++◌, Bytes, ◌≡◌, refl, sym, ap,
  ◌∙◌, arith, Bool-cases, Option, none, some, inl, inr, append_assoc, leb, leb→le,
}
use linux_iot_gateway.Common.OrderedMap
use linux_iot_gateway.ProtocolParser
use linux_iot_gateway.GatewayTimeout.{
  PendingRequest, AckFrame, RetryStats, Gateway, Sender, max_retries, sender_step, next_command,
  look_for_ack, found_ack, after_timeout, ack_line, timeout_line, retry_line, failed_line,
}
use linux_iot_gateway.GatewayTimeout.Schedule.{
  acked_after, failed, retry_lines, outcome_lines, report,
}
use linux_iot_gateway.GatewayTimeout.Accounts.{
  Fits, AcksFit, IsAccounted, moved-IsAccounted, settled-IsAccounted,
}

abbrev pub Accounted : List ℕ → Gateway → Type 0
Accounted all g = IsAccounted all g.sender g.stats g.printed

next-Accounted :
    (all : List ℕ) (s : ℕ) (rest : List Bytes) {stats : RetryStats} {printed : List Bytes}
    → IsAccounted all (Sender.next s rest) stats printed
    → IsAccounted all (next_command s rest) stats printed
unfolding next_command
next-Accounted all s [] v =
    moved-IsAccounted (Sender.next s []) Sender.closes refl refl refl refl tt v
next-Accounted all s (payload ∷ rest) v =
    elim (Bool-cases (ProtocolParser.is_valid (ProtocolParser.parse payload))) [
      | inl good ↦ rw good (
          moved-IsAccounted (Sender.next s (payload ∷ rest)) (Sender.sends first rest) (rw good)
            refl refl refl (omega arith) v)
      | inr bad ↦ rw bad (
          moved-IsAccounted (Sender.next s (payload ∷ rest)) (Sender.next first.sequence rest)
            (rw bad) refl refl refl tt v)
    ]
  where
    first : PendingRequest
    first = record { sequence = (s + 1) % 2 ^ 32; payload = payload; attempt = 1 }

retry_lines-suc :
    (k n m : ℕ)
    → m ≡ suc n
    → retry_lines k m ≡ retry_lines k n ++ timeout_line k m ∷ retry_line k ∷ []
retry_lines-suc k n m e =
    ap (retry_lines k) e ∙ ap (λ j. retry_lines k n ++ timeout_line k j ∷ retry_line k ∷ []) (sym e)

module _ (all : List ℕ) (r : PendingRequest) (rest : List Bytes) (g : Gateway) where
  timeout-Accounted :
      IsAccounted all (Sender.timed_out r rest) g.stats g.printed
      → Accounted all (after_timeout r rest g)
  unfolding after_timeout
  timeout-Accounted v = elim (Bool-cases (leb r.attempt max_retries)) [
    | inl again ↦ rw again (record {
      results = v.results;
      within = v.within;
      splits = v.splits;
      prints =
          shown _ v
          ∙ ap
              (λ n.
                report v.results
                ++ (retry_lines r.sequence (r.attempt - 1)
                    ++ timeout_line r.sequence n ∷ retry_line r.sequence ∷ []))
              (omega arith)
          ∙ ap (λ t. report v.results ++ t)
              (sym (
                retry_lines-suc r.sequence (r.attempt - 1) (suc r.attempt - 1)
                  (omega (arith, v.fits))));
      acks = v.acks;
      fails = v.fails;
      retried = omega (arith, v.retried, v.fits);
      timed = omega (arith, v.timed);
      sent = omega (arith, v.sent);
      fits = omega (arith, leb→le r.attempt max_retries again);
    })
    | inr over ↦ rw over (
        settled-IsAccounted r (Sender.timed_out r rest) rest failed _ _ refl tt v
          (gave_up v (ground (arith, v.fits))) (omega (arith, v.acks)) (omega (arith, v.fails))
          (ground (arith, v.retried, v.fits)) (omega (arith, v.timed)) (omega (arith, v.sent)))
  ]
    where
      shown :
          (last : Bytes) (v : IsAccounted all (Sender.timed_out r rest) g.stats g.printed)
          → g.printed ++ timeout_line r.sequence r.attempt ∷ last ∷ []
            ≡ report v.results
              ++ (retry_lines r.sequence (r.attempt - 1)
                  ++ timeout_line r.sequence r.attempt ∷ last ∷ [])
      shown last v =
          ap (λ t. t ++ timeout_line r.sequence r.attempt ∷ last ∷ []) v.prints
          ∙ append_assoc (report v.results) (retry_lines r.sequence (r.attempt - 1)) _

      gave_up :
          (v : IsAccounted all (Sender.timed_out r rest) g.stats g.printed)
          → r.attempt ≡ suc max_retries
          → g.printed ++ timeout_line r.sequence r.attempt ∷ failed_line r.sequence ∷ []
            ≡ report v.results ++ outcome_lines r.sequence failed
      gave_up v e =
          shown _ v
          ∙ ap
              (λ n.
                report v.results
                ++ (retry_lines r.sequence (n - 1)
                    ++ timeout_line r.sequence n ∷ failed_line r.sequence ∷ []))
              e

  found-Accounted :
      (found : Option AckFrame) (deadline : Bool)
      → OrderedMap.find r.sequence g.ack_map ≡ found
      → Accounted all g
      → AcksFit g
      → IsAccounted all (Sender.waits r rest) g.stats g.printed
      → let g' = found_ack found deadline r rest g in Accounted all g' × AcksFit g'
  unfolding found_ack
  found-Accounted none true e v h w = (
    moved-IsAccounted (Sender.waits r rest) (Sender.timed_out r rest) refl refl refl refl w.fits w,
    h,
  )
  found-Accounted none false e v h w = (v, h)
  found-Accounted (some ack) deadline e v h w = (
    moved-IsAccounted (Sender.waits r rest) (Sender.acknowledged r ack rest) refl refl refl refl
        (w.fits, OrderedMap.find-Entries Fits r.sequence g.ack_map h e) w,
    OrderedMap.erase-Entries Fits r.sequence g.ack_map h,
  )

  acknowledged-Accounted :
      (ack : AckFrame)
      → IsAccounted all (Sender.acknowledged r ack rest) g.stats g.printed
      → IsAccounted all
          (Sender.next r.sequence rest)
          (record g.stats { acked = suc g.stats.acked })
          (g.printed ++ ack_line ack ∷ [])
  acknowledged-Accounted ack v =
      settled-IsAccounted r (Sender.acknowledged r ack rest) rest (acked_after (r.attempt - 1)) _ _
        refl (omega (arith, v.fits)) v
        (ap (λ t. t ++ ack_line ack ∷ []) v.prints
          ∙ append_assoc (report v.results) (retry_lines r.sequence (r.attempt - 1))
              (ack_line ack ∷ [])
          ∙ ap
              (λ a. report v.results ++ (retry_lines r.sequence (r.attempt - 1) ++ ack_line a ∷ []))
              v.fits.1)
        (omega (arith, v.acks)) (omega (arith, v.fails)) v.retried v.timed (omega (arith, v.sent))

timeout-ack_map :
    (r : PendingRequest) (rest : List Bytes) (g : Gateway)
    → (after_timeout r rest g).ack_map ≡ g.ack_map
unfolding after_timeout
timeout-ack_map r rest g = ground arith

pub sender-Accounted :
    (all : List ℕ) (deadline : Bool) (p : Sender) (g : Gateway)
    → Accounted all g
    → AcksFit g
    → IsAccounted all p g.stats g.printed
    → let g' = sender_step deadline p g in Accounted all g' × AcksFit g'
unfolding sender_step look_for_ack
sender-Accounted all deadline (Sender.next s rest) g v h w = (next-Accounted all s rest w, h)
sender-Accounted all deadline (Sender.sends r rest) g v h w = (
  record {
    results = w.results;
    within = w.within;
    splits = w.splits;
    prints = w.prints;
    acks = w.acks;
    fails = w.fails;
    retried = w.retried;
    timed = w.timed;
    sent = omega (arith, w.sent);
    fits = w.fits;
  },
  h,
)
sender-Accounted all deadline (Sender.logs_send r rest) g v h w = (
  moved-IsAccounted (Sender.logs_send r rest) (Sender.waits r rest) refl refl refl refl w.fits w,
  h,
)
sender-Accounted all deadline (Sender.waits r rest) g v h w =
    found-Accounted all r rest g (OrderedMap.find r.sequence g.ack_map) deadline refl v h w
sender-Accounted all deadline (Sender.acknowledged r ack rest) g v h w =
    (acknowledged-Accounted all r rest g ack w, h)
sender-Accounted all deadline (Sender.timed_out r rest) g v h w =
    (timeout-Accounted all r rest g w, rw timeout-ack_map h)
sender-Accounted all deadline Sender.closes g v h w =
    (moved-IsAccounted Sender.closes Sender.logs_finished refl refl refl refl tt w, h)
sender-Accounted all deadline Sender.logs_finished g v h w =
    (moved-IsAccounted Sender.logs_finished Sender.ended refl refl refl refl tt w, h)
sender-Accounted all deadline Sender.ended g v h w = (v, h)
