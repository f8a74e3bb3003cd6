-- ===== src/Examples/FrameRuns.antt =====
-- Two frames behind a stray byte, cut into chunks in different places.
use linux_iot_gateway.Common.{
  ◌↔◌, ℕ, suc, ◌<◌, ◌++◌, [], ◌∷◌, some, ◌≡◌, refl, Bytes, All, length, arith,
}
use linux_iot_gateway.SerialFrame.Codec.{Frame, grab, stop, ok, encode, decode}
use linux_iot_gateway.SerialFrame.Codec.RoundTrip.{decode_iff}
use linux_iot_gateway.SerialFrame.Codec
use linux_iot_gateway.Common.Words
use linux_iot_gateway.SerialFrame.StreamParser
use linux_iot_gateway.SerialFrame.StreamParser.{extract_frames, StreamParser}
use linux_iot_gateway.SerialFrame.StreamParser.Scan.{Scans}
use linux_iot_gateway.SerialFrame.StreamParser.Refine.{settle, extract_frames-Scans}
use linux_iot_gateway.SerialFrame.StreamParser.Streams.{empty, feed, feed-encode_all}
use linux_iot_gateway.SerialFrame.StreamParser.Sound.{Weaves, feed-Weaves}

abbrev grab_frame : Frame
grab_frame = record { sequence = 258; command = grab }

abbrev stop_frame : Frame
stop_frame = record { sequence = 3; command = stop }

-- The bytes of the first frame.
abbrev grab_bytes : Bytes
grab_bytes = 170 ∷ 85 ∷ 3 ∷ 1 ∷ 2 ∷ 2 ∷ 2 ∷ 13 ∷ 10 ∷ []

grab_bytes-small : All (λ (b : ℕ). b < 256) grab_bytes
grab_bytes-small = ground arith

grab_bytes-decoded : decode grab_bytes ≡ ok grab_frame
unfolding decode Codec.decode_body Codec.is_known_command Codec.to_command Words.word_of
    Words.calculate_checksum
grab_bytes-decoded = refl

extract_frames-Scans_example :
    let (p', frames) = extract_frames (record { buffer = 7 ∷ grab_bytes }) in
    ((rest : Bytes) × (StreamParser.extract_loop (suc (length (7 ∷ grab_bytes))) (7 ∷ grab_bytes) []
        ≡ some (frames, rest)))
    × Scans (7 ∷ grab_bytes) frames (settle p'.buffer)
extract_frames-Scans_example = extract_frames-Scans (record { buffer = 7 ∷ grab_bytes })

feed-encode_all_example :
    (feed empty ((7 ∷ []) ∷ encode grab_frame ∷ (encode stop_frame ++ []) ∷ [])).1
    ≡ grab_frame ∷ stop_frame ∷ []
unfolding encode
feed-encode_all_example =
    feed-encode_all (7 ∷ []) (grab_frame ∷ stop_frame ∷ [])
      ((7 ∷ []) ∷ encode grab_frame ∷ (encode stop_frame ++ []) ∷ []) (refl, tt)
      (omega arith, (omega arith, tt)) refl

feed-Weaves_example :
    Weaves grab_bytes
      (feed empty (grab_bytes ∷ [])).1
      (settle (feed empty (grab_bytes ∷ [])).0.buffer)
feed-Weaves_example = feed-Weaves (grab_bytes ∷ []) grab_bytes-small

decode_iff_example :
    (decode grab_bytes ≡ ok grab_frame) ↔ ((grab_bytes ≡ encode grab_frame) × (258 < 65536))
decode_iff_example = decode_iff grab_bytes grab_frame grab_bytes-small
