-- ===== src/Examples/ParserRuns.antt =====
-- The frame of `main`, and streams around it.
use linux_iot_gateway.Common.{List, [], ◌∷◌, ◌++◌, ◌≡◌, refl, length, arith, Bytes}
use linux_iot_gateway.FrameParser.{
  checksum_error, tail_error, length_error, new_parser, parser_feed, lines, fed,
}
use linux_iot_gateway.FrameParser.Receiver.{idle, received, receiver, frame}
use linux_iot_gateway.FrameParser.Refine.{Stands, lines-received}
use linux_iot_gateway.FrameParser.Frames.{stream, frame_lines, lines-stream}
use linux_iot_gateway.FrameParser.Sound.{EndsWith, reported-frame}

abbrev test : Bytes
test = 0xAA ∷ 0x03 ∷ 0x01 ∷ 0x02 ∷ 0x03 ∷ 0x06 ∷ 0x55 ∷ []

lines-received_example :
    (lines test new_parser ≡ received test idle) × Stands (receiver test idle) (fed test new_parser)
lines-received_example = lines-received test

abbrev parts : List (Bytes × Bytes)
parts = (0x00 ∷ 0x55 ∷ [], 1 ∷ 2 ∷ 3 ∷ []) ∷ ([], []) ∷ []

lines-stream_example : lines (stream parts) new_parser ≡ frame_lines parts
lines-stream_example =
    lines-stream parts (((refl, (refl, tt)), omega arith), ((tt, omega arith), tt))

abbrev three_bytes : Bytes
three_bytes = 1 ∷ 2 ∷ 3 ∷ []

abbrev before_tail : Bytes
before_tail = 0xAA ∷ 0x03 ∷ 0x01 ∷ 0x02 ∷ 0x03 ∷ 0x06 ∷ []

reported-frame_example :
    (3 ≡ length three_bytes) × EndsWith (frame three_bytes) (before_tail ++ 0x55 ∷ [])
unfolding parser_feed
reported-frame_example = reported-frame before_tail three_bytes 0x55 3 refl

-- A length above 32, a checksum that is wrong, and a tail that is wrong.
errors :
    lines (0xAA ∷ 33 ∷ 0xAA ∷ 1 ∷ 7 ∷ 8 ∷ 0xAA ∷ 0 ∷ 0 ∷ 1 ∷ []) new_parser
    ≡ length_error ∷ checksum_error ∷ tail_error ∷ []
unfolding parser_feed
errors = refl
