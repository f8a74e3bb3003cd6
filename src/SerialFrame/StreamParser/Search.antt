-- ===== src/SerialFrame/StreamParser/Search.antt =====
-- The search of `extractFrames` for the header, seen as steps of the scanner.
use linux_iot_gateway.Common.{
  ℕ, ◌<◌, false, ◌&&◌, List, [], ◌∷◌, ◌≡◌, refl, sym, subst, arith, Bytes, ◌==◌, if◌then◌else◌,
  length, take, drop, inl, inr, Bool-cases, ==_iff,
}
use linux_iot_gateway.SerialFrame.Codec.{header1, header2, Frame, Decoded, ok, err, decode}
use linux_iot_gateway.SerialFrame.StreamParser.{
  drops, header_position, last_byte, candidate_round, synced_round,
}
use linux_iot_gateway.SerialFrame.StreamParser.Scan.{begins_frame, after_decode, look, Scans, skips}

-- The scanner gets from one place of the stream to another by dropping bytes.
pub data Slides : Bytes → Bytes → Type 0 where
  here : {b : Bytes} → Slides b b
  next : {b b' c : Bytes} → look b ≡ drops b' → Slides b' c → Slides b c

pub Slides-Scans : {b c r : Bytes} {fs : List Frame} → Slides b c → Scans c fs r → Scans b fs r
Slides-Scans here s = s
Slides-Scans (next e t) s = skips e (Slides-Scans t s)

abbrev pub synced : Bytes → Bytes
synced rest = header1 ∷ header2 ∷ rest

pub candidate_round-after_decode :
    (b : Bytes) (d : Decoded) → candidate_round b d ≡ after_decode b d
unfolding candidate_round after_decode
candidate_round-after_decode b (ok f) = refl
candidate_round-after_decode b (err e) = refl

pub synced_round-look : (rest : Bytes) → synced_round (synced rest) ≡ look (synced rest)
unfolding synced_round look begins_frame
synced_round-look [] = refl
synced_round-look (z ∷ rest) = elim (Bool-cases (z == 3)) [
  | inl three ↦
      subst (λ k. synced_round (synced (k ∷ rest)) ≡ look (synced (k ∷ rest)))
        (sym ((==_iff z 3).0 three))
        (ground (
          arith,
          candidate_round-after_decode (synced (3 ∷ rest)) (decode (take 9 (synced (3 ∷ rest)))),
        ))
  | inr other ↦ ground arith
]

-- Where the search for the header ends.
pub data Found (b : Bytes) : Type 0 where
  header :
      (rest : Bytes)
      → header_position b < length b
      → drop (header_position b) b ≡ synced rest
      → Slides b (synced rest)
      → Found b
  absent :
      header_position b ≡ length b
      → Slides b (if last_byte b == header1 then header1 ∷ [] else [])
      → Found b

pub look_other :
    (x y : ℕ) (b : Bytes)
    → (x == header1 && y == header2) ≡ false
    → look (x ∷ y ∷ b) ≡ drops (y ∷ b)
unfolding look begins_frame
look_other x y [] e = ground arith
look_other x y (z ∷ b) e = ground arith

pub look_single : (x : ℕ) → (x == header1) ≡ false → look (x ∷ []) ≡ drops []
unfolding look begins_frame
look_single x e = ground arith

pub Found-next :
    (x y : ℕ) (b : Bytes)
    → (x == header1 && y == header2) ≡ false
    → Found (y ∷ b)
    → Found (x ∷ y ∷ b)
unfolding header_position last_byte
Found-next x y b e (header rest lt same s) =
    header rest (ground arith) (rw (e, header_position) same) (next (look_other x y b e) s)
Found-next x y b e (absent all s) = absent (ground arith) (next (look_other x y b e) s)

pub find_header : (x : ℕ) (b : Bytes) → Found (x ∷ b)
unfolding header_position last_byte
find_header x [] = elim (Bool-cases (x == header1)) [
  | inl e ↦ absent refl (rw e (subst (λ k. Slides (x ∷ []) (k ∷ [])) ((==_iff x header1).0 e) here))
  | inr e ↦ absent refl (rw e (next (look_single x e) here))
]
find_header x (y ∷ b) = elim (Bool-cases (x == header1 && y == header2)) [
  | inl e ↦
      let same : x ∷ y ∷ b ≡ synced b = ground arith in
      header b (ground arith) (rw (e, header_position) same) (subst (Slides (x ∷ y ∷ b)) same here)
  | inr e ↦ Found-next x y b e (find_header y b)
]
