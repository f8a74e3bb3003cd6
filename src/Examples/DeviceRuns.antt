-- ===== src/Examples/DeviceRuns.antt =====
-- A request that arrives twice, and input of the command line.
use linux_iot_gateway.Common.{ℕ, ◌↔◌, List, [], ◌∷◌, some, ◌≡◌, refl, Bytes, codes, arith}
use linux_iot_gateway.ReliableSerial.Protocol.{
  RequestFrame, AckFrame, encode_request, decode_request,
}
use linux_iot_gateway.ReliableSerial.Protocol.RoundTrip.{with_length, decode_request_iff}
use linux_iot_gateway.ReliableSerial.Device.{new_device}
use linux_iot_gateway.ReliableSerial.Device.AtMostOnce.{
  serve, executions, asked, bit, serve-executions,
}
use linux_iot_gateway.ProtocolParser.{grab, parse}
use linux_iot_gateway.ProtocolParser.Accepts.{Denotes, parse_iff}
use linux_iot_gateway.ProtocolParser

abbrev grab_request : RequestFrame
grab_request = record { sequence = 3; command = 2 }

abbrev ack : AckFrame
ack = record { sequence = 3; result = 0 }

abbrev requests : List Bytes
requests = encode_request grab_request ∷ [] ∷ encode_request grab_request ∷ []

serve-executions_example : executions 3 (serve new_device requests).2 ≡ bit (asked 3 requests)
serve-executions_example = serve-executions requests 3

abbrev bytes : Bytes
bytes = 170 ∷ 85 ∷ 4 ∷ 0 ∷ 3 ∷ 1 ∷ 2 ∷ 4 ∷ 13 ∷ 10 ∷ []

decode_request_iff_example :
    (decode_request bytes ≡ some grab_request → (b : ℕ) × (bytes ≡ with_length b grab_request))
    × (((b : ℕ) × (bytes ≡ with_length b grab_request)) → decode_request bytes ≡ some grab_request)
decode_request_iff_example = decode_request_iff bytes grab_request (ground arith) (omega arith)

parse_iff_example : (parse (codes " grab\r\n") ≡ grab) ↔ Denotes (codes " grab\r\n") grab
unfolding ProtocolParser.is_valid
parse_iff_example = parse_iff (codes " grab\r\n") grab refl
