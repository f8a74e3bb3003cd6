-- ===== src/HandBridge/Node/Answers.antt =====
-- `uart_rx_worker`: how the bytes of the device become lines, and lines become answers.
use linux_iot_gateway.Common.{
  ℕ, ◌≤◌, true, false, not, ◌&&◌, List, [], ◌∷◌, ◌++◌, none, some, ◌≡◌, refl, ap, ◌∙◌, inl, inr,
  arith, Bytes, ◌==◌, leb, if◌then◌else◌, is_empty, Bool-cases, length, length-append, append_assoc,
  append-nil, All, All-append, All-map,
}
use linux_iot_gateway.Common.Decimal.{to_string, length-to_string, to_string-AllDigits, is_digit}
use linux_iot_gateway.HandBridge.AckParser.{AckStatus, parse_ack, max_seq, ack_status_to_string}
use linux_iot_gateway.HandBridge.AckParser.Accepts.{ack_line, parse_ack-ack_line}
use linux_iot_gateway.HandBridge.RetryPolicy
use linux_iot_gateway.HandBridge.RetryPolicy.{RetryPolicy}
use linux_iot_gateway.HandBridge.Node
use linux_iot_gateway.HandBridge.Node.{Node, RxWorker, max_line}
use linux_iot_gateway.HandBridge.Node.Schedule.{Event, step, run}

-- The state of the reader behind a newline.
abbrev pub fresh : RxWorker
fresh = record { rx_line = []; discard_line = false }

-- The bytes of a text arrive one by one, at one time.
abbrev pub arrivals : Bytes → ℕ → List Event
arrivals [] now = []
arrivals (ch ∷ text) now = Event.byte_arrives ch now ∷ arrivals text now

abbrev pub HasNoNewline : Bytes → Type 0
HasNoNewline = All (λ ch. (ch == b'\n') ≡ false)

run-append : (n : Node) (es es' : List Event) → run n (es ++ es') ≡ run (run n es) es'
unfolding run
run-append n [] es' = refl
run-append n (e ∷ es) es' = run-append (step n e) es es'

arrivals-append :
    (xs ys : Bytes) (now : ℕ) → arrivals (xs ++ ys) now ≡ arrivals xs now ++ arrivals ys now
arrivals-append [] ys now = refl
arrivals-append (x ∷ xs) ys now = ap (◌∷◌ (Event.byte_arrives x now)) (arrivals-append xs ys now)

-- The line while it is read: it grows up to its limit, and is dropped beyond.
abbrev line_state : Bytes → RxWorker
line_state text =
    if leb (length text) max_line
    then record { rx_line = text; discard_line = false }
    else record { rx_line = []; discard_line = true }

rx_store-line_state :
    (ch : ℕ) (text : Bytes) → Node.rx_store ch (line_state text) ≡ line_state (text ++ ch ∷ [])
unfolding Node.rx_store
rx_store-line_state ch text = ground (arith, length-append text (ch ∷ []))

rx_byte-line_state :
    (n : Node) (before : Bytes) (ch now : ℕ)
    → (ch == b'\n') ≡ false
    → Node.rx_byte ch now (record n { rx = line_state before })
      ≡ record n { rx = line_state (before ++ ch ∷ []) }
unfolding Node.rx_byte
rx_byte-line_state n before ch now other =
    rw (other, Node.rx_byte) (ap (λ rx. record n { rx = rx }) (rx_store-line_state ch before))

run-arrivals :
    (n : Node) (before text : Bytes) (now : ℕ)
    → HasNoNewline text
    → run (record n { rx = line_state before }) (arrivals text now)
      ≡ record n { rx = line_state (before ++ text) }
unfolding run step
run-arrivals n before [] now h = rw (append-nil before)
run-arrivals n before (ch ∷ text) now (other, h) =
    ap (λ m. run m (arrivals text now)) (rx_byte-line_state n before ch now other)
    ∙ run-arrivals n (before ++ ch ∷ []) text now h
    ∙ ap (λ line. record n { rx = line_state line }) (append_assoc before (ch ∷ []) text)

-- What a line does to the policy: an answer on a line that is neither empty nor longer than 95
-- bytes reaches it.
abbrev pub heard : ℕ → Bytes → RetryPolicy → RetryPolicy
heard now text p =
    if leb (length text) max_line && not (is_empty text)
    then elim (parse_ack (text ++ b'\n' ∷ [])) [
      | none ↦ p
      | some (seq, status) ↦ (RetryPolicy.on_ack p seq status now).0
    ]
    else p

rx_newline-heard :
    (now : ℕ) (text : Bytes) (p : RetryPolicy)
    → Node.rx_newline now (line_state text) p ≡ heard now text p
unfolding Node.rx_newline
rx_newline-heard now text p = elim (Bool-cases (leb (length text) max_line)) [
  | inl short ↦ rw (short, Node.rx_newline)
  | inr long ↦ rw (long, Node.rx_newline)
]

rx_byte-newline :
    (n : Node) (text : Bytes) (now : ℕ)
    → Node.rx_byte b'\n' now (record n { rx = line_state text })
      ≡ record n { retry_policy = heard now text n.retry_policy; rx = fresh }
unfolding Node.rx_byte
rx_byte-newline n text now =
    ap (λ p. record n { retry_policy = p; rx = fresh }) (rx_newline-heard now text n.retry_policy)

-- Between two lines of the device, a line of any length changes the node by what it says, and by
-- nothing if it is too long; behind it the reader is as it was before.
pub run-line :
    (n : Node) (text : Bytes) (now : ℕ)
    → n.rx ≡ fresh
    → HasNoNewline text
    → run n (arrivals (text ++ b'\n' ∷ []) now)
      ≡ record n { retry_policy = heard now text n.retry_policy; rx = fresh }
run-line n text now start h =
    ap (run n) (arrivals-append text (b'\n' ∷ []) now)
    ∙ run-append n (arrivals text now) (Event.byte_arrives b'\n' now ∷ [])
    ∙ ap (λ m. run m (Event.byte_arrives b'\n' now ∷ []))
        (ap (λ rx. run (record n { rx = rx }) (arrivals text now)) start
          ∙ run-arrivals n [] text now h)
    ∙ unfold run step in rx_byte-newline n text now

digits-HasNoNewline : (s : Bytes) → All (λ c. is_digit c ≡ true) s → HasNoNewline s
digits-HasNoNewline = All-map (λ (c : ℕ) (h : is_digit c ≡ true). digit_no_newline c h)
  where
    digit_no_newline : (c : ℕ) → is_digit c ≡ true → (c == b'\n') ≡ false
    digit_no_newline c h = ground arith

status-HasNoNewline : (status : AckStatus) → HasNoNewline (ack_status_to_string status)
unfolding ack_status_to_string
status-HasNoNewline AckStatus.in_progress = ground arith
status-HasNoNewline AckStatus.ok = ground arith
status-HasNoNewline AckStatus.preempted = ground arith
status-HasNoNewline AckStatus.busy = ground arith
status-HasNoNewline AckStatus.error = ground arith

length-status : (status : AckStatus) → length (ack_status_to_string status) ≤ 11
unfolding ack_status_to_string
length-status AckStatus.in_progress = omega arith
length-status AckStatus.ok = omega arith
length-status AckStatus.preempted = omega arith
length-status AckStatus.busy = omega arith
length-status AckStatus.error = omega arith

-- The line of an answer, up to its carriage return.
abbrev pub answer_text : ℕ → AckStatus → Bytes
answer_text seq status = ack_line seq status ++ b'\r' ∷ []

answer_text-HasNoNewline : (seq : ℕ) (status : AckStatus) → HasNoNewline (answer_text seq status)
answer_text-HasNoNewline seq status = (
  refl,
  (
    refl,
    (
      refl,
      (
        refl,
        All-append P (to_string seq ++ b' ' ∷ ack_status_to_string status) (b'\r' ∷ [])
            (All-append P (to_string seq) (b' ' ∷ ack_status_to_string status)
              (digits-HasNoNewline (to_string seq) (to_string-AllDigits seq))
              (refl, status-HasNoNewline status))
            (refl, tt),
      ),
    ),
  ),
)
  where
    P : ℕ → Type 0
    P ch = (ch == b'\n') ≡ false

length-answer_text :
    (seq : ℕ) (status : AckStatus) → seq ≤ max_seq → length (answer_text seq status) ≤ max_line
length-answer_text seq status h = omega (
  arith,
  length-append (to_string seq ++ b' ' ∷ ack_status_to_string status) (b'\r' ∷ []),
  length-append (to_string seq) (b' ' ∷ ack_status_to_string status),
  length-to_string 9 seq (omega arith),
  length-status status,
)

le→leb : (a b : ℕ) → a ≤ b → leb a b ≡ true
le→leb a b h = ground arith

heard-answer_text :
    (seq : ℕ) (status : AckStatus) (now : ℕ) (p : RetryPolicy)
    → seq ≤ max_seq
    → heard now (answer_text seq status) p ≡ (RetryPolicy.on_ack p seq status now).0
heard-answer_text seq status now p h = rw (
  le→leb (length (answer_text seq status)) max_line (length-answer_text seq status h),
  append_assoc (ack_line seq status) (b'\r' ∷ []) (b'\n' ∷ []),
  parse_ack-ack_line seq status h,
)

-- Between two lines, the answer that a device sends for any 32-bit number and any status reaches the policy as a call
-- of `on_ack` with that number and that status, and nothing else of the node changes.
pub run-answer :
    (n : Node) (seq : ℕ) (status : AckStatus) (now : ℕ)
    → n.rx ≡ fresh
    → seq ≤ max_seq
    → run n (arrivals (answer_text seq status ++ b'\n' ∷ []) now)
      ≡ record n { retry_policy = (RetryPolicy.on_ack n.retry_policy seq status now).0; rx = fresh }
run-answer n seq status now start h =
    run-line n (answer_text seq status) now start (answer_text-HasNoNewline seq status)
    ∙ ap (λ p. record n { retry_policy = p; rx = fresh })
        (heard-answer_text seq status now n.retry_policy h)
