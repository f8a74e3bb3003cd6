-- ===== src/FrameParser/Sound.antt =====
-- What has come before a frame is reported.
use linux_iot_gateway.Common.{
  ℕ, ◌%◌, ◌≤◌, ◌<◌, Bool, true, false, [], ◌∷◌, ◌++◌, Option, some, Bytes, ◌==◌, ==_iff, leb,
  leb→le, if◌then◌else◌, length, length-append, append_assoc, append-nil, ◌≡◌, ◌⊎◌, refl, sym, ap,
  ◌∙◌, subst, arith, Bool-cases, inl, inr,
}
use linux_iot_gateway.FrameParser.{Line, frame_ok, new_parser, parser_feed, fed}
use linux_iot_gateway.FrameParser.Receiver.{
  Receiver, idle, sized, body, sum, ends, total, receive, receive_length, receiver, frame,
}
use linux_iot_gateway.FrameParser.Refine.{feed-Agrees, lines-received}

-- The bytes end with some.
abbrev pub EndsWith : Bytes → Bytes → Type 0
EndsWith last bytes = (before : Bytes) × (bytes ≡ before ++ last)

EndsWith-append :
    (last bytes : Bytes) (byte : ℕ)
    → EndsWith last bytes
    → EndsWith (last ++ byte ∷ []) (bytes ++ byte ∷ [])
EndsWith-append last bytes byte (before, e) =
    (before, ap (λ front. front ++ byte ∷ []) e ∙ append_assoc before last (byte ∷ []))

-- What the receiver has read stands at the end of the bytes.
abbrev Reads : Receiver → Bytes → Type 0
Reads idle bytes = Unit {0}
Reads sized bytes = EndsWith (0xAA ∷ []) bytes
Reads (body n read) bytes = EndsWith (0xAA ∷ n ∷ read) bytes × (length read < n)
Reads (sum read) bytes = EndsWith (0xAA ∷ length read ∷ read) bytes
Reads (ends read) bytes = EndsWith (0xAA ∷ length read ∷ (read ++ total read % 256 ∷ [])) bytes

-- Behind a byte of the payload.
body-Reads :
    (complete : Bool) (n : ℕ) (read bytes : Bytes)
    → leb n (length read) ≡ complete
    → EndsWith (0xAA ∷ n ∷ read) bytes
    → length read ≤ n
    → Reads (if complete then sum read else body n read) bytes
body-Reads true n read bytes e h most =
    subst (λ k. EndsWith (0xAA ∷ k ∷ read) bytes) (omega (arith, leb→le n (length read) e)) h
body-Reads false n read bytes e h most = (h, ground (arith, e))

length-Reads :
    (bytes : Bytes) (byte : ℕ)
    → EndsWith (0xAA ∷ []) bytes
    → Reads (receive_length byte).0 (bytes ++ byte ∷ [])
length-Reads bytes byte h = elim (Bool-cases (leb byte 32)) [
  | inl fits ↦ rw fits (by_zero (Bool-cases (byte == 0)))
  | inr long ↦ rw long tt
]
  where
    by_zero :
        ((byte == 0) ≡ true) ⊎ ((byte == 0) ≡ false)
        → Reads (if byte == 0 then sum [] else body byte []) (bytes ++ byte ∷ [])
    by_zero (inl empty) = rw empty (
        subst (λ k. EndsWith (0xAA ∷ k ∷ []) (bytes ++ byte ∷ [])) ((==_iff byte 0).0 empty)
          (EndsWith-append (0xAA ∷ []) bytes byte h))
    by_zero (inr more) = rw more (EndsWith-append (0xAA ∷ []) bytes byte h, ground arith)

receive-Reads :
    (r : Receiver) (bytes : Bytes) (byte : ℕ)
    → Reads r bytes
    → Reads (receive byte r).0 (bytes ++ byte ∷ [])
receive-Reads idle bytes byte h = elim (Bool-cases (byte == 0xAA)) [
  | inl found ↦ rw found (bytes, ap (λ b. bytes ++ b ∷ []) ((==_iff byte 0xAA).0 found))
  | inr other ↦ rw other tt
]
receive-Reads sized bytes byte h = length-Reads bytes byte h
receive-Reads (body n read) bytes byte (h, less) =
    body-Reads (leb n (length (read ++ byte ∷ []))) n (read ++ byte ∷ []) (bytes ++ byte ∷ []) refl
      (EndsWith-append (0xAA ∷ n ∷ read) bytes byte h)
      (omega (arith, length-append read (byte ∷ [])))
receive-Reads (sum read) bytes byte h = elim (Bool-cases (byte == total read % 256)) [
  | inl good ↦ rw good (
      subst (λ b. EndsWith (0xAA ∷ length read ∷ (read ++ b ∷ [])) (bytes ++ byte ∷ []))
        ((==_iff byte (total read % 256)).0 good)
        (EndsWith-append (0xAA ∷ length read ∷ read) bytes byte h))
  | inr bad ↦ rw bad tt
]
receive-Reads (ends read) bytes byte h = tt

receiver-Reads :
    (bytes : Bytes) (r : Receiver) (seen : Bytes)
    → Reads r seen
    → Reads (receiver bytes r) (seen ++ bytes)
receiver-Reads [] r seen h = subst (Reads r) (sym (append-nil seen)) h
receiver-Reads (byte ∷ bytes) r seen h =
    subst (Reads (receiver bytes (receive byte r).0)) (append_assoc seen (byte ∷ []) bytes)
      (receiver-Reads bytes (receive byte r).0 (seen ++ byte ∷ []) (receive-Reads r seen byte h))

-- What a frame that is reported says of the bytes.
abbrev Reported : Option Line → Bytes → Type 0
Reported (some (frame_ok n payload)) bytes = (n ≡ length payload) × EndsWith (frame payload) bytes
Reported _ bytes = Unit {0}

with_tail :
    (read bytes : Bytes) (byte : ℕ)
    → byte ≡ 0x55
    → Reads (ends read) bytes
    → EndsWith (frame read) (bytes ++ byte ∷ [])
with_tail read bytes byte e h =
    let s = total read % 256 in
    subst (λ end. EndsWith (0xAA ∷ length read ∷ end) (bytes ++ byte ∷ []))
      (append_assoc read (s ∷ []) (byte ∷ []) ∙ ap (λ b. read ++ s ∷ b ∷ []) e)
      (EndsWith-append (0xAA ∷ length read ∷ (read ++ s ∷ [])) bytes byte h)

receive-Reported :
    (r : Receiver) (bytes : Bytes) (byte : ℕ)
    → Reads r bytes
    → Reported (receive byte r).1 (bytes ++ byte ∷ [])
receive-Reported idle bytes byte h = tt
receive-Reported sized bytes byte h = elim (Bool-cases (leb byte 32)) [
  | inl fits ↦ rw fits tt
  | inr long ↦ rw long tt
]
receive-Reported (body n read) bytes byte h = tt
receive-Reported (sum read) bytes byte h = elim (Bool-cases (byte == total read % 256)) [
  | inl good ↦ rw good tt
  | inr bad ↦ rw bad tt
]
receive-Reported (ends read) bytes byte h = elim (Bool-cases (byte == 0x55)) [
  | inl good ↦ rw good (refl, with_tail read bytes byte ((==_iff byte 0x55).0 good) h)
  | inr bad ↦ rw bad tt
]

-- A frame that the parser reports, whatever bytes came before, has just stood on the wire: the bytes
-- end with its head, the length of its payload, the payload, the checksum of the payload and the
-- tail.
pub reported-frame :
    (bytes payload : Bytes) (byte n : ℕ)
    → (parser_feed byte (fed bytes new_parser)).1 ≡ some (frame_ok n payload)
    → (n ≡ length payload) × EndsWith (frame payload) (bytes ++ byte ∷ [])
reported-frame bytes payload byte n e =
    let (_, same) =
      feed-Agrees byte (receiver bytes idle) (fed bytes new_parser) (lines-received bytes).1 in
    subst (λ line. Reported line (bytes ++ byte ∷ [])) (sym same ∙ e)
      (receive-Reported (receiver bytes idle) bytes byte (receiver-Reads bytes idle [] tt))
