-- ===== src/ReliableSerial/Device/AtMostOnce.antt =====
-- Sequences of requests: what is executed, and what is replied.
use linux_iot_gateway.Common.{
  ℕ, suc, ◌+◌, Bool, true, false, ◌||◌, List, [], ◌∷◌, ◌++◌, Option, none, some, ◌≡◌, refl, ap, ap₂,
  ◌∙◌, arith, Bytes, ◌==◌, if◌then◌else◌, inl, inr, Bool-cases, Option-cases, ==_iff, subst,
}
use linux_iot_gateway.Common.OrderedMap
use linux_iot_gateway.Common.OrderedMap.{find-assign}
use linux_iot_gateway.ReliableSerial.Protocol.{
  RequestFrame, AckFrame, encode_ack, decode_request, result_ok,
}
use linux_iot_gateway.ReliableSerial.Device.{
  Line, duplicate, execute, SimulatedDevice, new_device, answer, handle_decoded, handle_request,
}

-- The requests one by one: the device, the replies and what is printed.
unfoldable pub serve : SimulatedDevice → List Bytes → SimulatedDevice × List Bytes × List Line
serve d [] = (d, [], [])
serve d (bytes ∷ requests) =
    let (d', reply, lines) = handle_request d bytes in
    let (d'', replies, later) = serve d' requests in (d'', reply ∷ replies, lines ++ later)

-- How often the number is executed.
abbrev pub executions : ℕ → List Line → ℕ
executions s [] = 0
executions s (duplicate k ∷ lines) = executions s lines
executions s (execute k c ∷ lines) = if k == s then suc (executions s lines) else executions s lines

executions-append :
    (s : ℕ) (xs ys : List Line) → executions s (xs ++ ys) ≡ executions s xs + executions s ys
executions-append s [] ys = omega arith
executions-append s (duplicate k ∷ xs) ys = executions-append s xs ys
executions-append s (execute k c ∷ xs) ys = ground (arith, executions-append s xs ys)

abbrev has_number : ℕ → Option RequestFrame → Bool
has_number s none = false
has_number s (some r) = r.sequence == s

-- A request with the number is among those that arrive.
abbrev pub asked : ℕ → List Bytes → Bool
asked s [] = false
asked s (bytes ∷ requests) = has_number s (decode_request bytes) || asked s requests

abbrev known : Option AckFrame → Bool
known none = false
known (some _) = true

abbrev is_cached : SimulatedDevice → ℕ → Bool
is_cached d s = known (OrderedMap.find s d.ack_cache)

abbrev pub bit : Bool → ℕ
bit true = 1
bit false = 0

-- Each entry is the ack `ok` under its number.
abbrev CacheIsValid : SimulatedDevice → Type 0
CacheIsValid d =
    (s : ℕ) (a : AckFrame)
    → OrderedMap.find s d.ack_cache ≡ some a
    → a ≡ record { sequence = s; result = result_ok }

-- The counters and the cache agree.
abbrev CountersAgree : SimulatedDevice → Type 0
CountersAgree d = d.stats.received ≡ d.stats.executed + d.stats.duplicates

-- What one request does: the number is executed if it is new, and known from then on.
pub record Counts (d d' : SimulatedDevice) (lines : List Line) (o : Option RequestFrame) (s : ℕ)
    : Type 0 where
  pub executes : bit (is_cached d' s) ≡ bit (is_cached d s) + executions s lines
  pub remembers : is_cached d' s ≡ (is_cached d s || has_number s o)

answer-Counts :
    (d : SimulatedDevice) (r : RequestFrame) (o : Option AckFrame) (s : ℕ)
    → OrderedMap.find r.sequence d.ack_cache ≡ o
    → let (d', _, lines) = answer d r o in Counts d d' lines (some r) s
unfolding answer
answer-Counts d r (some ack) s e = elim (Bool-cases (r.sequence == s)) [
  | inl same ↦
      let there : OrderedMap.find s d.ack_cache ≡ some ack =
        subst (λ i. OrderedMap.find i d.ack_cache ≡ some ack) ((==_iff r.sequence s).0 same) e in
      record { executes = omega arith; remembers = rw there refl }
  | inr other ↦ record { executes = omega arith; remembers = ground arith }
]
answer-Counts d r none s e = elim (Bool-cases (r.sequence == s)) [
  | inl same ↦
      let absent : OrderedMap.find s d.ack_cache ≡ none =
        subst (λ i. OrderedMap.find i d.ack_cache ≡ none) ((==_iff r.sequence s).0 same) e in
      record {
        executes = ground (arith, found s, ap known absent);
        remembers = ground (arith, found s, ap known absent);
      }
  | inr other ↦ record { executes = ground (arith, found s); remembers = ground (arith, found s) }
]
  where
    ack : AckFrame
    ack = record { sequence = r.sequence; result = result_ok }

    found :
        (j : ℕ)
        → known (OrderedMap.find j (OrderedMap.assign r.sequence ack d.ack_cache))
          ≡ (if r.sequence == j then true else known (OrderedMap.find j d.ack_cache))
    found j = rw (find-assign r.sequence j ack d.ack_cache) (ground arith)

handle_decoded-Counts :
    (d : SimulatedDevice) (o : Option RequestFrame) (s : ℕ)
    → let (d', _, lines) = handle_decoded d o in Counts d d' lines o s
handle_decoded-Counts d none s = record { executes = omega arith; remembers = ground arith }
handle_decoded-Counts d (some r) s =
    let c =
      answer-Counts (record d { stats = record d.stats { received = suc d.stats.received } }) r
        (OrderedMap.find r.sequence d.ack_cache) s refl in
    record { executes = c.executes; remembers = c.remembers }

serve-Counts :
    (requests : List Bytes) (d : SimulatedDevice) (s : ℕ)
    → let (d', _, lines) = serve d requests in
      (bit (is_cached d' s) ≡ bit (is_cached d s) + executions s lines)
      × (is_cached d' s ≡ (is_cached d s || asked s requests))
unfolding serve handle_request
serve-Counts [] d s = (omega arith, ground arith)
serve-Counts (bytes ∷ requests) d s =
    let one = handle_decoded-Counts d (decode_request bytes) s in
    let (d', _, lines) = handle_request d bytes in
    let (later, remembered) = serve-Counts requests d' s in
    (
      omega (arith, one.executes, later, executions-append s lines (serve d' requests).2),
      remembered ∙ ap (λ b. b || asked s requests) one.remembers ∙ or_assoc (is_cached d s) _ _,
    )
  where
    or_assoc : (a b c : Bool) → ((a || b) || c) ≡ (a || (b || c))
    or_assoc true b c = refl
    or_assoc false b c = refl

-- Whatever arrives at a new device, a number is executed exactly once if a valid request with it is
-- among what arrives, and never otherwise.
pub serve-executions :
    (requests : List Bytes) (s : ℕ)
    → executions s (serve new_device requests).2 ≡ bit (asked s requests)
unfolding OrderedMap.find
serve-executions requests s =
    let (counted, remembered) = serve-Counts requests new_device s in
    omega (arith, counted, ap bit remembered)

-- The reply that a request is due: the ack `ok` with its number, or nothing.
abbrev pub due_reply : Option RequestFrame → Bytes
due_reply none = []
due_reply (some r) = encode_ack (record { sequence = r.sequence; result = result_ok })

abbrev pub due_replies : List Bytes → List Bytes
due_replies [] = []
due_replies (bytes ∷ requests) = due_reply (decode_request bytes) ∷ due_replies requests

some-eq : (x y : AckFrame) → some x ≡ some y → y ≡ x
some-eq x y e = cc

assign-valid :
    (d : SimulatedDevice) (k : ℕ)
    → CacheIsValid d
    → (s : ℕ) (a : AckFrame)
    → OrderedMap.find s
        (OrderedMap.assign k (record { sequence = k; result = result_ok }) d.ack_cache)
      ≡ some a
    → a ≡ record { sequence = s; result = result_ok }
assign-valid d k v s a e = elim (Bool-cases (k == s)) [
  | inl same ↦
      some-eq (record { sequence = k; result = result_ok }) a (rw (found, same) at e)
      ∙ ap (λ i. record { sequence = i; result = result_ok }) ((==_iff k s).0 same)
  | inr other ↦ v s a (rw (found, other) at e)
]
  where
    found :
        OrderedMap.find s
          (OrderedMap.assign k (record { sequence = k; result = result_ok }) d.ack_cache)
        ≡ (if k == s
            then some (record { sequence = k; result = result_ok })
            else OrderedMap.find s d.ack_cache)
    found = find-assign k s (record { sequence = k; result = result_ok }) d.ack_cache

handle_decoded-reply :
    (d : SimulatedDevice) (o : Option RequestFrame)
    → CacheIsValid d
    → CountersAgree d
    → let (d', reply, _) = handle_decoded d o in
      (reply ≡ due_reply o) × CacheIsValid d' × CountersAgree d'
unfolding answer
handle_decoded-reply d none v c = (refl, v, c)
handle_decoded-reply d (some r) v c = elim (Option-cases (OrderedMap.find r.sequence d.ack_cache)) [
  | inl e ↦ rw (e, answer) (refl, assign-valid d r.sequence v, omega arith)
  | inr (a, e) ↦ rw (e, answer) (ap encode_ack (v r.sequence a e), v, omega arith)
]

serve-due_replies :
    (requests : List Bytes) (d : SimulatedDevice)
    → CacheIsValid d
    → CountersAgree d
    → let (d', replies, _) = serve d requests in (replies ≡ due_replies requests) × CountersAgree d'
unfolding serve handle_request
serve-due_replies [] d v c = (refl, c)
serve-due_replies (bytes ∷ requests) d v c =
    let (reply, v', c') = handle_decoded-reply d (decode_request bytes) v c in
    let (replies, c'') = serve-due_replies requests (handle_request d bytes).0 v' c' in
    (ap₂ ◌∷◌ reply replies, c'')

-- A new device answers each valid request, new or repeated, with the ack `ok` of its number, and
-- nothing else; what it has received is what it has executed and the duplicates.
pub serve-replies :
    (requests : List Bytes)
    → let (d, replies, _) = serve new_device requests in
      (replies ≡ due_replies requests) × (d.stats.received ≡ d.stats.executed + d.stats.duplicates)
unfolding OrderedMap.find
serve-replies requests = serve-due_replies requests new_device (λ s a e. cc) refl
