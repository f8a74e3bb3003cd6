-- ===== src/SerialFrame/StreamParser/Streams.antt =====
-- The parser fed chunk by chunk.
use linux_iot_gateway.Common.{
  ℕ, ◌<◌, ◌≤◌, true, false, List, [], ◌∷◌, ◌++◌, ◌≡◌, refl, ap, sym, subst, ◌∙◌, arith, Bytes, ◌==◌,
  length, take, drop, inl, inr, Bool-cases, append_assoc, append-nil, All,
}
use linux_iot_gateway.SerialFrame.Codec.{header1, Frame, ok, encode, decode}
use linux_iot_gateway.SerialFrame.Codec.RoundTrip.{decode-encode}
use linux_iot_gateway.SerialFrame.StreamParser
use linux_iot_gateway.SerialFrame.StreamParser.{
  StreamParser, Round, breaks, drops, extracts, extract_frames,
}
use linux_iot_gateway.SerialFrame.StreamParser.Scan.{
  frame_size, begins_frame, begins_frame-append_false, after_decode, look, Scans, ends, skips,
  takes, look-breaks, Scans-append, Scans-unique, Scans-dropped,
}
use linux_iot_gateway.SerialFrame.StreamParser.Refine.{settle, extract_frames-Scans}

pub empty : StreamParser
empty = record { buffer = [] }

-- Each chunk is appended, and what can be extracted is.
unfoldable pub feed : StreamParser → List Bytes → StreamParser × List Frame
unfolding StreamParser.append
feed p [] = (p, [])
feed p (chunk ∷ chunks) =
    let (p', frames) = extract_frames (StreamParser.append p chunk) in
    let (p'', later) = feed p' chunks in (p'', frames ++ later)

abbrev pub concat : List Bytes → Bytes
concat [] = []
concat (chunk ∷ chunks) = chunk ++ concat chunks

look_junk : (x : ℕ) (ys : Bytes) → (x == header1) ≡ false → look (x ∷ ys) ≡ drops ys
unfolding look begins_frame
look_junk x ys e = rw (begins_frame-append_false (x ∷ []) ys e)

settle-Scans :
    (b ys : Bytes) {r : Bytes} {fs : List Frame}
    → Scans (b ++ ys) fs r
    → Scans (settle b ++ ys) fs r
settle-Scans [] ys s = s
settle-Scans (x ∷ []) ys s = elim (Bool-cases (x == header1)) [
  | inl e ↦ rw e s
  | inr e ↦ rw e (Scans-dropped (look_junk x ys e) s)
]
settle-Scans (x ∷ y ∷ b) ys s = s

unsettle-Scans : (b : Bytes) {r : Bytes} {fs : List Frame} → Scans (settle b) fs r → Scans b fs r
unsettle-Scans [] s = s
unsettle-Scans (x ∷ []) {r} {fs} s = elim (Bool-cases (x == header1)) [
  | inl e ↦ rw e at s
  | inr e ↦ let none_left : Scans [] fs r = rw e at s in skips (look_junk x [] e) none_left
]
unsettle-Scans (x ∷ y ∷ b) s = s

Scans-rest : {b r : Bytes} {fs : List Frame} → Scans b fs r → Scans r [] r
Scans-rest {b} {r} (ends e) = let whole = look-breaks b e in ends (ap look whole ∙ e)
Scans-rest (skips e s) = Scans-rest s
Scans-rest (takes e s) = Scans-rest s

-- What is fed is scanned as one stream.
feed-Scans :
    (p : StreamParser) (chunks : List Bytes)
    → Scans p.buffer [] (settle p.buffer)
    → Scans (p.buffer ++ concat chunks) (feed p chunks).1 (settle (feed p chunks).0.buffer)
unfolding feed
feed-Scans p [] pending = rw (append-nil p.buffer) pending
feed-Scans p (chunk ∷ chunks) pending =
    subst (λ b. Scans b (feed p (chunk ∷ chunks)).1 (settle (feed p (chunk ∷ chunks)).0.buffer))
      (append_assoc p.buffer chunk (concat chunks))
      (Scans-append (concat chunks) first (
        settle-Scans p'.buffer (concat chunks)
          (feed-Scans p' chunks (unsettle-Scans p'.buffer (Scans-rest first)))))
  where
    p' : StreamParser
    p' = (extract_frames (StreamParser.append p chunk)).0

    first :
        Scans
          (p.buffer ++ chunk)
          (extract_frames (StreamParser.append p chunk)).1
          (settle p'.buffer)
    first = (extract_frames-Scans (StreamParser.append p chunk)).1

pub feed-empty :
    (chunks : List Bytes)
    → Scans (concat chunks) (feed empty chunks).1 (settle (feed empty chunks).0.buffer)
unfolding empty look begins_frame
feed-empty chunks = feed-Scans empty chunks (ends refl)

-- The frames depend on the bytes alone, not on how they are cut into chunks, nor on when frames
-- are extracted.
pub feed_chunks :
    (chunks chunks' : List Bytes)
    → concat chunks ≡ concat chunks'
    → (feed empty chunks).1 ≡ (feed empty chunks').1
feed_chunks chunks chunks' e =
    (Scans-unique (feed-empty chunks) (
      subst (λ b. Scans b (feed empty chunks').1 (settle (feed empty chunks').0.buffer)) (sym e)
        (feed-empty chunks'))).0

abbrev pub encode_all : List Frame → Bytes
encode_all [] = []
encode_all (f ∷ fs) = encode f ++ encode_all fs

abbrev pub Has16Bits : Frame → Type 0
Has16Bits f = f.sequence < 65536

look-decoded :
    (b : Bytes) (f : Frame)
    → begins_frame b ≡ true
    → frame_size ≤ length b
    → decode (take frame_size b) ≡ ok f
    → look b ≡ extracts f (drop frame_size b)
unfolding look after_decode
look-decoded b f begins long e = ground arith

look-encode : (f : Frame) (ys : Bytes) → Has16Bits f → look (encode f ++ ys) ≡ extracts f ys
unfolding begins_frame encode
look-encode f ys h = look-decoded (encode f ++ ys) f refl (omega arith) (decode-encode f h)

Scans-encode_all : (fs : List Frame) → All Has16Bits fs → Scans (encode_all fs) fs []
unfolding look begins_frame
Scans-encode_all [] h = ends refl
Scans-encode_all (f ∷ fs) (h, hs) = takes (look-encode f (encode_all fs) h) (Scans-encode_all fs hs)

-- A byte that is not AA.
abbrev pub IsNoise : ℕ → Type 0
IsNoise x = (x == header1) ≡ false

Scans-noise :
    (noise s : Bytes) {r : Bytes} {fs : List Frame}
    → All IsNoise noise
    → Scans s fs r
    → Scans (noise ++ s) fs r
Scans-noise [] s h t = t
Scans-noise (x ∷ noise) s (hx, h) t = skips (look_junk x (noise ++ s) hx) (Scans-noise noise s h t)

-- The encodings of any frames with numbers of 16 bits, behind any bytes other than AA and cut into
-- any chunks, are parsed to exactly those frames.
pub feed-encode_all :
    (noise : Bytes) (fs : List Frame) (chunks : List Bytes)
    → All IsNoise noise
    → All Has16Bits fs
    → concat chunks ≡ noise ++ encode_all fs
    → (feed empty chunks).1 ≡ fs
feed-encode_all noise fs chunks quiet small e =
    (Scans-unique
      (subst (λ b. Scans b (feed empty chunks).1 (settle (feed empty chunks).0.buffer)) e
        (feed-empty chunks))
      (Scans-noise noise (encode_all fs) quiet (Scans-encode_all fs small))).0
