-- ===== src/FrameParser/Refine.antt =====
-- The parser compared with the receiver.
use linux_iot_gateway.Common.{
  ℕ, zero, suc, ◌+◌, ◌%◌, ◌≤◌, ◌<◌, Bool, true, false, [], ◌∷◌, ◌++◌, Option, none, some, Bytes,
  ◌==◌, leb, if◌then◌else◌, set, take, length, length-set, length-append, ◌≡◌, refl, sym, ap, ap₂,
  ◌∙◌, ◌⊎◌, subst, ==_iff, arith, Bool-cases, inl, inr, leb→le,
}
use linux_iot_gateway.FrameParser.{
  wait_head, wait_len, wait_payload, wait_checksum, wait_tail, Parser, Line, frame_ok, tail_error,
  new_parser, feed, parser_feed, add_line, lines, fed,
}
use linux_iot_gateway.FrameParser.Receiver.{
  Receiver, idle, sized, body, sum, ends, total, receive, received, receiver,
}

-- The variables that the rest of a frame depends on.
pub record Stores (read : Bytes) (p : Parser) : Type 0 where
  pub prefix : take (length read) p.payload ≡ read
  pub sums : p.checksum ≡ total read % 256

-- What a state of the receiver says of the parser's variables.
abbrev Shows : Receiver → Parser → Type 0
Shows idle p = p.state ≡ wait_head
Shows sized p = p.state ≡ wait_len
Shows (body n read) p =
    (p.state ≡ wait_payload)
    × (p.payload_len ≡ n)
    × (p.payload_index ≡ length read)
    × (length read < n)
    × (n ≤ 32)
    × Stores read p
Shows (sum read) p =
    (p.state ≡ wait_checksum) × (p.payload_len ≡ length read) × (length read ≤ 32) × Stores read p
Shows (ends read) p =
    (p.state ≡ wait_tail) × (p.payload_len ≡ length read) × (length read ≤ 32) × Stores read p

abbrev pub Stands : Receiver → Parser → Type 0
Stands r p = (length p.payload ≡ 32) × Shows r p

take-set : (xs : Bytes) (i v : ℕ) → i < length xs → take (suc i) (set xs i v) ≡ take i xs ++ v ∷ []
take-set [] i v h = absurd (omega arith)
take-set (x ∷ xs) zero v h = refl
take-set (x ∷ xs) (suc i) v h = ap (◌∷◌ x) (take-set xs i v (omega arith))

total-append : (xs : Bytes) (b : ℕ) → total (xs ++ b ∷ []) ≡ total xs + b
total-append [] b = omega arith
total-append (x ∷ xs) b = omega (arith, total-append xs b)

-- A turn of both.
abbrev Agrees : ℕ → Receiver → Parser × Option Line → Type 0
Agrees byte r result = let (r', line) = receive byte r in Stands r' result.0 × (result.1 ≡ line)

abbrev no_line : Option Line
no_line = none

length-Agrees :
    (byte : ℕ) (p : Parser) → length p.payload ≡ 32 → Agrees byte sized (feed wait_len byte p)
unfolding feed
length-Agrees byte p full = elim (Bool-cases (leb byte 32)) [
  | inl fits ↦ rw fits (by_zero fits (Bool-cases (byte == 0)))
  | inr long ↦ rw long ((full, refl), refl)
]
  where
    by_zero :
        leb byte 32 ≡ true
        → ((byte == 0) ≡ true) ⊎ ((byte == 0) ≡ false)
        → Stands (if byte == 0 then sum [] else body byte []) (record p {
          payload_len = byte;
          payload_index = 0;
          checksum = 0;
          state = if byte == 0 then wait_checksum else wait_payload;
        })
          × (no_line ≡ none)
    by_zero fits (inl empty) = rw empty (
      (full, (refl, (==_iff byte 0).0 empty, omega arith, record { prefix = refl; sums = refl })),
      refl,
    )
    by_zero fits (inr more) = rw more (
      (
        full,
        (
          refl,
          refl,
          refl,
          ground arith,
          leb→le byte 32 fits,
          record { prefix = refl; sums = refl },
        ),
      ),
      refl,
    )

-- Behind a byte of the payload, which may have been the last.
payload_Stands :
    (complete : Bool) (n : ℕ) (read : Bytes) (p : Parser)
    → leb n (length read) ≡ complete
    → length p.payload ≡ 32
    → p.state ≡ (if complete then wait_checksum else wait_payload)
    → p.payload_len ≡ n
    → p.payload_index ≡ length read
    → length read ≤ n
    → n ≤ 32
    → Stores read p
    → Stands (if complete then sum read else body n read) p
payload_Stands true n read p e full at len index most fits stores =
    (full, (at, omega (arith, leb→le n (length read) e), omega arith, stores))
payload_Stands false n read p e full at len index most fits stores =
    (full, (at, len, index, ground (arith, e), fits, stores))

payload-Stores :
    (byte : ℕ) (read : Bytes) (p : Parser)
    → length p.payload ≡ 32
    → p.payload_index ≡ length read
    → length read < 32
    → Stores read p
    → Stores (read ++ byte ∷ []) (feed wait_payload byte p).0
unfolding feed
payload-Stores byte read p full index below stores = record {
  prefix =
      ap₂ (λ k i. take k (set p.payload i byte)) {y = suc (length read)}
        (length-append read (byte ∷ []) ∙ omega arith) index
      ∙ take-set p.payload (length read) byte (omega arith)
      ∙ ap (λ front. front ++ byte ∷ []) stores.prefix;
  sums = omega (arith, stores.sums, total-append read byte);
}

payload-Agrees :
    (byte n : ℕ) (read : Bytes) (p : Parser)
    → Stands (body n read) p
    → Agrees byte (body n read) (feed wait_payload byte p)
unfolding feed
payload-Agrees byte n read p (full, (at, len, index, below, fits, stores)) = (
  payload_Stands (leb n (length read')) n read' (feed wait_payload byte p).0 refl
      (length-set p.payload p.payload_index byte ∙ full)
      (ap₂ (λ k i. if leb k i then wait_checksum else wait_payload) len next) len next
      (omega (arith, length-append read (byte ∷ []))) fits
      (payload-Stores byte read p full index (omega arith) stores),
  refl,
)
  where
    read' : Bytes
    read' = read ++ byte ∷ []

    next : (p.payload_index + 1) % 256 ≡ length (read ++ byte ∷ [])
    next = omega (arith, index, length-append read (byte ∷ []))

checksum-Agrees :
    (byte : ℕ) (read : Bytes) (p : Parser)
    → Stands (sum read) p
    → Agrees byte (sum read) (feed wait_checksum byte p)
unfolding feed
checksum-Agrees byte read p (full, (at, len, fits, stores)) =
    elim (Bool-cases (byte == total read % 256)) [
      | inl good ↦
          rw (good, ap (◌==◌ byte) stores.sums ∙ good)
            ((full, (refl, len, fits, record { prefix = stores.prefix; sums = stores.sums })), refl)
      | inr bad ↦ rw (bad, ap (◌==◌ byte) stores.sums ∙ bad) ((full, refl), refl)
    ]

tail-Agrees :
    (byte : ℕ) (read : Bytes) (p : Parser)
    → Stands (ends read) p
    → Agrees byte (ends read) (feed wait_tail byte p)
unfolding feed
tail-Agrees byte read p (full, (at, len, fits, stores)) = (
  (full, refl),
  ap₂ (λ k payload. some (if byte == 0x55 then frame_ok k payload else tail_error)) len
      (ap (λ k. take k p.payload) len ∙ stores.prefix),
)

head-Agrees : (byte : ℕ) (p : Parser) → Stands idle p → Agrees byte idle (feed wait_head byte p)
unfolding feed
head-Agrees byte p (full, at) = elim (Bool-cases (byte == 0xAA)) [
  | inl found ↦ rw found ((full, refl), refl)
  | inr other ↦ rw other ((full, refl), refl)
]

pub feed-Agrees :
    (byte : ℕ) (r : Receiver) (p : Parser) → Stands r p → Agrees byte r (parser_feed byte p)
unfolding parser_feed
feed-Agrees byte idle p h =
    subst (λ s. Agrees byte idle (feed s byte p)) (sym h.1) (head-Agrees byte p h)
feed-Agrees byte sized p h =
    subst (λ s. Agrees byte sized (feed s byte p)) (sym h.1) (length-Agrees byte p h.0)
feed-Agrees byte (body n read) p h =
    subst (λ s. Agrees byte (body n read) (feed s byte p)) (sym h.1.0)
      (payload-Agrees byte n read p h)
feed-Agrees byte (sum read) p h =
    subst (λ s. Agrees byte (sum read) (feed s byte p)) (sym h.1.0) (checksum-Agrees byte read p h)
feed-Agrees byte (ends read) p h =
    subst (λ s. Agrees byte (ends read) (feed s byte p)) (sym h.1.0) (tail-Agrees byte read p h)

lines-Stands :
    (bytes : Bytes) (r : Receiver) (p : Parser)
    → Stands r p
    → (lines bytes p ≡ received bytes r) × Stands (receiver bytes r) (fed bytes p)
lines-Stands [] r p h = (refl, h)
lines-Stands (byte ∷ bytes) r p h =
    let (h', same) = feed-Agrees byte r p h in
    let (rest, end) = lines-Stands bytes (receive byte r).0 (parser_feed byte p).0 h' in
    (ap₂ add_line same rest, end)

pub new_parser-Stands : Stands idle new_parser
new_parser-Stands = (refl, refl)

-- Whatever bytes come, the parser prints the lines of the receiver, which holds the payload as a
-- list of at most 32 bytes, and behind them its array still has 32 bytes and its variables are those
-- of the receiver's state: a byte is stored only at an index below `payload_len`, which is at most
-- 32.
pub lines-received :
    (bytes : Bytes)
    → (lines bytes new_parser ≡ received bytes idle)
      × Stands (receiver bytes idle) (fed bytes new_parser)
lines-received bytes = lines-Stands bytes idle new_parser new_parser-Stands
