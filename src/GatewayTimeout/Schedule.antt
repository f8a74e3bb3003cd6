-- ===== src/GatewayTimeout/Schedule.antt =====
-- The turns of the sender and the device, and what may become of each request.
use linux_iot_gateway.Common.{
  ℕ, zero, suc, ◌+◌, ◌%◌, ◌^◌, ◌≤◌, true, false, List, [], ◌∷◌, ◌++◌, Bytes, if◌then◌else◌,
}
use linux_iot_gateway.ProtocolParser
use linux_iot_gateway.GatewayTimeout.{
  Gateway, max_retries, sender_step, device_step, ack_line, ack_of, timeout_line, retry_line,
  failed_line,
}

-- The threads take turns in any order, and a deadline may come in any turn of the sender.
pub data Turn : Type 0 where
  sender_turn deadline_turn device_turn : Turn

unfoldable pub step : Gateway → Turn → Gateway
step g sender_turn = sender_step false g.sender g
step g deadline_turn = sender_step true g.sender g
step g device_turn = device_step g.device g

abbrev pub run : Gateway → List Turn → Gateway
run g [] = g
run g (t ∷ ts) = run (step g t) ts

-- The numbers of the valid commands.
abbrev pub due : ℕ → List Bytes → List ℕ
due s [] = []
due s (payload ∷ rest) =
    let sequence = (s + 1) % 2 ^ 32 in
    let later = due sequence rest in
    if ProtocolParser.is_valid (ProtocolParser.parse payload) then sequence ∷ later else later

-- A request is acknowledged after some timeouts, or fails.
pub data Outcome : Type 0 where
  acked_after : ℕ → Outcome
  failed : Outcome

abbrev pub acked_of : Outcome → ℕ
acked_of (acked_after n) = 1
acked_of failed = 0

abbrev pub failed_of : Outcome → ℕ
failed_of (acked_after n) = 0
failed_of failed = 1

abbrev pub retries_of : Outcome → ℕ
retries_of (acked_after n) = n
retries_of failed = max_retries

abbrev pub WithinRetries : Outcome → Type 0
WithinRetries (acked_after n) = n ≤ max_retries
WithinRetries failed = Unit {0}

-- What each retry prints, for the attempts up to a number.
abbrev pub retry_lines : ℕ → ℕ → List Bytes
retry_lines sequence zero = []
retry_lines sequence (suc n) =
    retry_lines sequence n ++ timeout_line sequence (suc n) ∷ retry_line sequence ∷ []

abbrev pub ok_line : ℕ → Bytes
ok_line sequence = ack_line (ack_of (record { sequence = sequence; payload = []; attempt = 1 }))

abbrev pub outcome_lines : ℕ → Outcome → List Bytes
outcome_lines sequence (acked_after n) = retry_lines sequence n ++ ok_line sequence ∷ []
outcome_lines sequence failed =
    retry_lines sequence max_retries
    ++ timeout_line sequence (suc max_retries) ∷ failed_line sequence ∷ []

abbrev pub report : List (ℕ × Outcome) → List Bytes
report [] = []
report ((sequence, outcome) ∷ rest) = outcome_lines sequence outcome ++ report rest

abbrev pub numbers : List (ℕ × Outcome) → List ℕ
numbers [] = []
numbers ((sequence, outcome) ∷ rest) = sequence ∷ numbers rest

abbrev pub total : (Outcome → ℕ) → List (ℕ × Outcome) → ℕ
total f [] = 0
total f ((sequence, outcome) ∷ rest) = f outcome + total f rest
