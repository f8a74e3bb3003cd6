-- ===== src/SerialFrame/StreamParser/Scan.antt =====
-- The specification: a scanner that goes through the stream byte by byte.
use linux_iot_gateway.Common.{
  ℕ, ◌≤◌, Bool, true, false, ◌&&◌, List, [], ◌∷◌, ◌++◌, ◌≡◌, refl, ap, subst, ◌∙◌, arith, Bytes,
  ◌==◌, if◌then◌else◌, length, ltb, take, drop, take-append_of_le, drop-append_of_le, inl, inr,
  Bool-cases, length-append,
}
use linux_iot_gateway.SerialFrame.Codec.{
  header1, header2, payload_length, Frame, Decoded, ok, err, decode,
}
use linux_iot_gateway.SerialFrame.StreamParser.{Round, breaks, drops, extracts}

abbrev pub frame_size : ℕ
frame_size = 9

-- The stream agrees with `AA 55 03` as far as it goes.
unfoldable pub begins_frame : Bytes → Bool
begins_frame [] = true
begins_frame (x ∷ []) = x == header1
begins_frame (x ∷ y ∷ []) = x == header1 && y == header2
begins_frame (x ∷ y ∷ z ∷ rest) = x == header1 && y == header2 && z == payload_length

unfoldable pub after_decode : Bytes → Decoded → Round
after_decode stream (ok f) = extracts f (drop frame_size stream)
after_decode stream (err e) = drops (drop 1 stream)

-- The first byte is dropped unless a frame begins with it; the scanner stops where the stream ends
-- before that is settled.
unfoldable pub look : Bytes → Round
unfolding after_decode
look stream =
    if begins_frame stream
    then if ltb (length stream) frame_size
      then breaks stream
      else after_decode stream (decode (take frame_size stream))
    else drops (drop 1 stream)

-- The frames of a stream, and the end that is not settled yet.
pub data Scans : Bytes → List Frame → Bytes → Type 0 where
  ends : {b r : Bytes} → look b ≡ breaks r → Scans b [] r
  skips : {b b' r : Bytes} {fs : List Frame} → look b ≡ drops b' → Scans b' fs r → Scans b fs r
  takes :
      {b b' r : Bytes} {f : Frame} {fs : List Frame}
      → look b ≡ extracts f b'
      → Scans b' fs r
      → Scans b (f ∷ fs) r

pub begins_frame-append_false :
    (b ys : Bytes) → begins_frame b ≡ false → begins_frame (b ++ ys) ≡ false
unfolding begins_frame
begins_frame-append_false [] ys e = ground arith
begins_frame-append_false (x ∷ []) [] e = e
begins_frame-append_false (x ∷ []) (y ∷ []) e = ground arith
begins_frame-append_false (x ∷ []) (y ∷ z ∷ ys) e = ground arith
begins_frame-append_false (x ∷ y ∷ []) [] e = e
begins_frame-append_false (x ∷ y ∷ []) (z ∷ ys) e = ground arith
begins_frame-append_false (x ∷ y ∷ z ∷ b) ys e = e

begins_frame-append_long :
    (b ys : Bytes) → frame_size ≤ length b → begins_frame (b ++ ys) ≡ begins_frame b
unfolding begins_frame
begins_frame-append_long (x ∷ y ∷ z ∷ b) ys h = refl
begins_frame-append_long _ ys h = absurd (omega arith)

begins_frame-length : (b : Bytes) → begins_frame b ≡ false → 1 ≤ length b
unfolding begins_frame
begins_frame-length [] e = cc
begins_frame-length (x ∷ b) e = omega arith

-- What `look` settled, more input does not change.
abbrev pub extended : Round → Bytes → Round
extended (breaks r) ys = breaks r
extended (drops r) ys = drops (r ++ ys)
extended (extracts f r) ys = extracts f (r ++ ys)

abbrev pub is_break : Round → Bool
is_break (breaks r) = true
is_break _ = false

after_decode-append :
    (b ys : Bytes) (d : Decoded)
    → frame_size ≤ length b
    → after_decode (b ++ ys) d ≡ extended (after_decode b d) ys
unfolding after_decode
after_decode-append b ys (ok f) h = ap (extracts f) (drop-append_of_le frame_size b ys h)
after_decode-append b ys (err e) h = ap drops (drop-append_of_le 1 b ys (omega arith))

pub look-append : (b ys : Bytes) → is_break (look b) ≡ false → look (b ++ ys) ≡ extended (look b) ys
unfolding look
look-append b ys e = elim (Bool-cases (begins_frame b)) [
  | inl begins ↦ elim (Bool-cases (ltb (length b) frame_size)) [
    | inl short ↦ absurd (ground arith)
    | inr long ↦
        let size : frame_size ≤ length b = ground arith in
        let size' : ltb (length (b ++ ys)) frame_size ≡ false =
          ground (arith, length-append b ys) in
        rw
          (
            begins_frame-append_long b ys size,
            begins,
            size',
            long,
            take-append_of_le frame_size b ys size,
          )
          (after_decode-append b ys (decode (take frame_size b)) size)
  ]
  | inr other ↦
      rw (begins_frame-append_false b ys other, other)
        (ap drops (drop-append_of_le 1 b ys (begins_frame-length b other)))
]

after_decode-not_break : (b : Bytes) (d : Decoded) → is_break (after_decode b d) ≡ false
unfolding after_decode
after_decode-not_break b (ok f) = refl
after_decode-not_break b (err e) = refl

-- A break keeps the whole stream.
pub look-breaks : (b : Bytes) {r : Bytes} → look b ≡ breaks r → r ≡ b
unfolding look
look-breaks b e = ground (arith, after_decode-not_break b (decode (take frame_size b)))

-- The frames of a stream are those of its first part, and then those of the unsettled end of that
-- part with the rest behind it.
pub Scans-append :
    (ys : Bytes) {b r r' : Bytes} {fs gs : List Frame}
    → Scans b fs r
    → Scans (r ++ ys) gs r'
    → Scans (b ++ ys) (fs ++ gs) r'
Scans-append ys {b} {r} {r'} {gs} (ends e) s =
    subst (λ c. Scans (c ++ ys) gs r') (look-breaks b e) s
Scans-append ys {b} (skips e t) s = skips (look-append b ys (rw e) ∙ rw e) (Scans-append ys t s)
Scans-append ys {b} (takes e t) s = takes (look-append b ys (rw e) ∙ rw e) (Scans-append ys t s)

-- A stream has one result.
pub Scans-unique :
    {b r r' : Bytes} {fs gs : List Frame} → Scans b fs r → Scans b gs r' → (fs ≡ gs) × (r ≡ r')
Scans-unique (ends e) (ends e') = (refl, cc)
Scans-unique (ends e) (skips e' t) = cc
Scans-unique (ends e) (takes e' t) = cc
Scans-unique (skips e t) (ends e') = cc
Scans-unique {r'} {gs} (skips e t) (skips e' t') =
    Scans-unique t (subst (λ c. Scans c gs r') (cc) t')
Scans-unique (skips e t) (takes e' t') = cc
Scans-unique (takes e t) (ends e') = cc
Scans-unique (takes e t) (skips e' t') = cc
Scans-unique {r'} (takes e t) (takes {fs = gs} e' t') =
    let (same, same') = Scans-unique t (subst (λ c. Scans c gs r') (cc) t') in (cc, same')

-- A byte that was dropped has no part in the result.
pub Scans-dropped :
    {b b' r : Bytes} {fs : List Frame} → look b ≡ drops b' → Scans b fs r → Scans b' fs r
Scans-dropped d (ends e) = cc
Scans-dropped {r} {fs} d (skips e t) = subst (λ c. Scans c fs r) (cc) t
Scans-dropped d (takes e t) = cc
