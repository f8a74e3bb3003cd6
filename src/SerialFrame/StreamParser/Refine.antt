-- ===== src/SerialFrame/StreamParser/Refine.antt =====
-- The rounds of `extractFrames` as steps of the scanner, and the loop.
use linux_iot_gateway.Common.{
  ℕ, zero, suc, ◌<◌, ◌≤◌, Bool, true, false, List, [], ◌∷◌, ◌++◌, Option, none, some, ◌≡◌, refl, ap,
  sym, subst, ◌∙◌, arith, Bytes, ◌==◌, if◌then◌else◌, length, length-drop, take, drop, inl, inr,
  Bool-cases, append_assoc, append-nil,
}
use linux_iot_gateway.SerialFrame.Codec.{header1, Frame, Decoded, ok, err, decode}
use linux_iot_gateway.SerialFrame.StreamParser
use linux_iot_gateway.SerialFrame.StreamParser.{
  StreamParser, Round, breaks, drops, extracts, header_position, last_byte, candidate_round,
  synced_round, round, extract_loop, extract_frames,
}
use linux_iot_gateway.SerialFrame.StreamParser.Scan.{
  begins_frame, after_decode, look, frame_size, Scans, ends, skips, takes, look-breaks,
}
use linux_iot_gateway.SerialFrame.StreamParser.Search.{
  Slides, Slides-Scans, synced, synced_round-look, Found, look_single, find_header, here, next,
  header, absent,
}

-- A single byte that begins no header is kept by the parser and dropped by the scanner.
abbrev pub settle : Bytes → Bytes
settle [] = []
settle (x ∷ []) = if x == header1 then x ∷ [] else []
settle (x ∷ y ∷ b) = x ∷ y ∷ b

-- A round of the loop, seen as steps of the scanner; each one that goes on shortens the buffer.
abbrev RoundScans : Bytes → Round → Type 0
RoundScans b (breaks rest) = Scans b [] (settle rest)
RoundScans b (drops rest) =
    (length rest < length b) × ((fs : List Frame) (r : Bytes) → Scans rest fs r → Scans b fs r)
RoundScans b (extracts f rest) =
    (length rest < length b)
    × ((fs : List Frame) (r : Bytes) → Scans rest fs r → Scans b (f ∷ fs) r)

pub after_decode-drops :
    (b : Bytes) (d : Decoded) {r : Bytes} → after_decode b d ≡ drops r → r ≡ drop 1 b
unfolding after_decode
after_decode-drops b (ok f) e = cc
after_decode-drops b (err x) e = cc

after_decode-extracts :
    (b : Bytes) (d : Decoded) {f : Frame} {r : Bytes}
    → after_decode b d ≡ extracts f r
    → r ≡ drop frame_size b
unfolding after_decode
after_decode-extracts b (ok f) e = cc
after_decode-extracts b (err x) e = cc

pub look-drops : (b : Bytes) {r : Bytes} → look b ≡ drops r → r ≡ drop 1 b
unfolding look
look-drops b e = ground (arith, after_decode-drops b (decode (take frame_size b)))

pub look-extracts :
    (b : Bytes) (f : Frame) (r : Bytes)
    → look b ≡ extracts f r
    → (r ≡ drop frame_size b) × (frame_size ≤ length b)
unfolding look
look-extracts b f r e =
    ground (arith, after_decode-extracts b (decode (take frame_size b)) {f = f} {r = r})

Slides-length : {b c : Bytes} → Slides b c → length c ≤ length b
Slides-length here = omega arith
Slides-length {b} (next {b' = b'} e t) =
    omega (arith, Slides-length t, ap length (look-drops b e), length-drop 1 b)

synced-RoundScans : (rest : Bytes) (o : Round) → look (synced rest) ≡ o → RoundScans (synced rest) o
synced-RoundScans rest (breaks r) e =
    let whole = look-breaks (synced rest) e in
    subst (λ c. Scans (synced rest) [] (settle c)) (sym whole) (ends (e ∙ ap breaks whole))
synced-RoundScans rest (drops r) e =
    (omega (arith, ap length (look-drops (synced rest) e)), λ fs r' s. skips e s)
synced-RoundScans rest (extracts f r) e =
    let (left, enough) = look-extracts (synced rest) f r e in
    (omega (arith, ap length left, length-drop frame_size (synced rest)), λ fs r' s. takes e s)

RoundScans-Slides : (b c : Bytes) (o : Round) → Slides b c → RoundScans c o → RoundScans b o
RoundScans-Slides b c (breaks r) t s = Slides-Scans t s
RoundScans-Slides b c (drops r) t (lt, s) =
    (omega (arith, Slides-length t), λ fs r' u. Slides-Scans t (s fs r' u))
RoundScans-Slides b c (extracts f r) t (lt, s) =
    (omega (arith, Slides-length t), λ fs r' u. Slides-Scans t (s fs r' u))

settle_tail :
    (b : Bytes) (c : Bool)
    → Slides b (if c then header1 ∷ [] else [])
    → Scans b [] (settle (if c then header1 ∷ [] else []))
unfolding look begins_frame
settle_tail b true t = Slides-Scans t (ends refl)
settle_tail b false t = Slides-Scans t (ends refl)

round-header :
    (b rest : Bytes)
    → 2 ≤ length b
    → header_position b < length b
    → drop (header_position b) b ≡ synced rest
    → round b ≡ look (synced rest)
unfolding round
round-header b rest long lt same = ground (arith, ap synced_round same, synced_round-look rest)

round-absent :
    (b : Bytes)
    → 2 ≤ length b
    → header_position b ≡ length b
    → round b ≡ breaks (if last_byte b == header1 then header1 ∷ [] else [])
unfolding round
round-absent b long all = ground arith

long-RoundScans : (b : Bytes) → 2 ≤ length b → Found b → RoundScans b (round b)
long-RoundScans b long (header rest lt same t) = rw (round-header b rest long lt same) (
    RoundScans-Slides b (synced rest) (look (synced rest)) t
      (synced-RoundScans rest (look (synced rest)) refl))
long-RoundScans b long (absent all t) =
    rw (round-absent b long all) (settle_tail b (last_byte b == header1) t)

round-RoundScans : (b : Bytes) → RoundScans b (round b)
unfolding round look begins_frame
round-RoundScans [] = ends refl
round-RoundScans (x ∷ []) = elim (Bool-cases (x == header1)) [
  | inl e ↦ rw e (ends (ground arith))
  | inr e ↦ rw e (skips (look_single x e) (ends refl))
]
round-RoundScans (x ∷ y ∷ b) = long-RoundScans (x ∷ y ∷ b) (omega arith) (find_header x (y ∷ b))

-- The loop ends with the frames of the scanner behind those that it began with.
abbrev Extracted : Bytes → List Frame → Option (List Frame × Bytes) → Type 0
Extracted b frames none = ⊥
Extracted b frames (some (out, rest)) =
    (fs : List Frame) × (out ≡ frames ++ fs) × Scans b fs (settle rest)

Extracted-round :
    (fuel : ℕ) (b : Bytes) (frames : List Frame) (o : Round)
    → length b < suc fuel
    → ((b' : Bytes) (frames' : List Frame)
        → length b' < fuel
        → Extracted b' frames' (extract_loop fuel b' frames'))
    → RoundScans b o
    → Extracted b frames (elim o [
      | breaks rest ↦ some (frames, rest)
      | drops rest ↦ extract_loop fuel rest frames
      | extracts frame rest ↦ extract_loop fuel rest (frames ++ frame ∷ [])
    ])
Extracted-round fuel b frames (breaks rest) h ih s = ([], sym (append-nil frames), s)
Extracted-round fuel b frames (drops rest) h ih (lt, s) =
    moved (extract_loop fuel rest frames) (ih rest frames (omega arith))
  where
    moved : (o : Option (List Frame × Bytes)) → Extracted rest frames o → Extracted b frames o
    moved none x = x
    moved (some (out, left)) (fs, e, t) = (fs, e, s fs (settle left) t)
Extracted-round fuel b frames (extracts f rest) h ih (lt, s) =
    moved (extract_loop fuel rest (frames ++ f ∷ [])) (ih rest (frames ++ f ∷ []) (omega arith))
  where
    moved :
        (o : Option (List Frame × Bytes))
        → Extracted rest (frames ++ f ∷ []) o
        → Extracted b frames o
    moved none x = x
    moved (some (out, left)) (fs, e, t) =
        (f ∷ fs, e ∙ append_assoc frames (f ∷ []) fs, s fs (settle left) t)

extract_loop-Extracted :
    (fuel : ℕ) (b : Bytes) (frames : List Frame)
    → length b < fuel
    → Extracted b frames (extract_loop fuel b frames)
unfolding extract_loop
extract_loop-Extracted zero b frames h = elim h [ ]
extract_loop-Extracted (suc fuel) b frames h =
    Extracted-round fuel b frames (round b) h (extract_loop-Extracted fuel) (round-RoundScans b)

-- The fuel of `extract_frames` never runs out, and the frames are those of the scanner; what stays
-- in the buffer is the unsettled end, or one byte that begins no header.
pub extract_frames-Scans :
    (p : StreamParser)
    → let (p', frames) = extract_frames p in
      ((rest : Bytes) × (extract_loop (suc (length p.buffer)) p.buffer [] ≡ some (frames, rest)))
      × Scans p.buffer frames (settle p'.buffer)
unfolding extract_frames
extract_frames-Scans p =
    by_result (extract_loop (suc (length p.buffer)) p.buffer [])
      (extract_loop-Extracted (suc (length p.buffer)) p.buffer [] (omega arith))
  where
    by_result :
        (o : Option (List Frame × Bytes))
        → Extracted p.buffer [] o
        → ((rest : Bytes) × (o ≡ some ((StreamParser.kept p o).1, rest)))
          × Scans p.buffer (StreamParser.kept p o).1 (settle (StreamParser.kept p o).0.buffer)
    by_result none x = absurd x
    by_result (some (out, rest)) (fs, e, t) =
        ((rest, refl), subst (λ gs. Scans p.buffer gs (settle rest)) (sym e) t)
