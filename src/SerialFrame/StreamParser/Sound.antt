-- ===== src/SerialFrame/StreamParser/Sound.antt =====
-- Where the frames that come out stand in the stream.
use linux_iot_gateway.Common.{
  ℕ, List, [], ◌∷◌, ◌++◌, ◌≡◌, ap, sym, subst, ◌∙◌, arith, Bytes, take, drop, take-append-drop, All,
  All-append_left, All-drop,
}
use linux_iot_gateway.SerialFrame.Codec.{Frame, Decoded, ok, err, encode, decode}
use linux_iot_gateway.SerialFrame.Codec.RoundTrip.{IsByte, decode_sound}
use linux_iot_gateway.SerialFrame.StreamParser.{extracts}
use linux_iot_gateway.SerialFrame.StreamParser.Scan.{
  frame_size, after_decode, look, Scans, ends, skips, takes, look-breaks,
}
use linux_iot_gateway.SerialFrame.StreamParser.Refine.{settle, look-drops, look-extracts}
use linux_iot_gateway.SerialFrame.StreamParser.Streams.{empty, feed, concat, feed-empty}

-- The stream is made of the encodings of the frames, in order, other bytes, and an end.
pub data Weaves : Bytes → List Frame → Bytes → Type 0 where
  done : {r : Bytes} → Weaves r [] r
  other : {b r : Bytes} {fs : List Frame} (x : ℕ) → Weaves b fs r → Weaves (x ∷ b) fs r
  frame :
      {b b' r : Bytes} {fs : List Frame} (f : Frame)
      → b ≡ encode f ++ b'
      → Weaves b' fs r
      → Weaves b (f ∷ fs) r

after_decode-ok :
    (b : Bytes) (d : Decoded) (f : Frame) (r : Bytes) → after_decode b d ≡ extracts f r → d ≡ ok f
unfolding after_decode
after_decode-ok b (ok g) f r e = ap ok (cc)
after_decode-ok b (err x) f r e = cc

look-ok :
    (b : Bytes) (f : Frame) (r : Bytes) → look b ≡ extracts f r → decode (take frame_size b) ≡ ok f
unfolding look
look-ok b f r e = ground (arith, after_decode-ok b (decode (take frame_size b)) f r)

All-take : (n : ℕ) (b : Bytes) → All IsByte b → All IsByte (take n b)
All-take n b small =
    All-append_left IsByte (take n b) (drop n b)
      (subst (All IsByte) (sym (take-append-drop n b)) small)

Weaves-drop : (b : Bytes) {r : Bytes} {fs : List Frame} → Weaves (drop 1 b) fs r → Weaves b fs r
Weaves-drop [] w = w
Weaves-drop (x ∷ b) w = other x w

Scans-Weaves :
    (b : Bytes) {r : Bytes} {fs : List Frame} → All IsByte b → Scans b fs r → Weaves b fs r
Scans-Weaves b small (ends e) = subst (λ r. Weaves b [] r) (sym (look-breaks b e)) done
Scans-Weaves b {r} {fs} small (skips {b' = b'} e s) =
    let gone = look-drops b e in
    Weaves-drop b (
      subst (λ c. Weaves c fs r) gone
        (Scans-Weaves b' (subst (All IsByte) (sym gone) (All-drop IsByte 1 b small)) s))
Scans-Weaves b {r} {fs} small (takes {b' = b'} {f = f} e s) =
    let (left, enough) = look-extracts b f b' e in
    let (same, _) =
      decode_sound (take frame_size b) f (All-take frame_size b small) (look-ok b f b' e) in
    frame f
      (sym (take-append-drop frame_size b)
        ∙ ap (◌++◌ (take frame_size b)) (sym left)
        ∙ ap (λ c. c ++ b') same)
      (Scans-Weaves b' (subst (All IsByte) (sym left) (All-drop IsByte frame_size b small)) s)

-- The stream of bytes that was fed, in whatever chunks, is made of the encodings of the frames that
-- came out, in their order, with other bytes between them, and of the end that is not settled.
pub feed-Weaves :
    (chunks : List Bytes)
    → All IsByte (concat chunks)
    → Weaves (concat chunks) (feed empty chunks).1 (settle (feed empty chunks).0.buffer)
feed-Weaves chunks small = Scans-Weaves (concat chunks) small (feed-empty chunks)
