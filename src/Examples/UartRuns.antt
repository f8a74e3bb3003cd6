-- ===== src/Examples/UartRuns.antt =====
-- Answers of a device and of a serial port.
use linux_iot_gateway.Common.{
  ◌++◌, true, false, not, [], ◌∷◌, some, ◌≡◌, ◌↔◌, refl, codes, is_empty,
}
use linux_iot_gateway.HandBridge.AckParser.{AckStatus, parse_ack, strip_line_end, max_seq}
use linux_iot_gateway.HandBridge.AckParser
use linux_iot_gateway.HandBridge.AckParser.Accepts.{Denotes, parse_ack_iff}
use linux_iot_gateway.HandBridge.Uart.{wrote, interrupted, write_uart, open_uart, PortReplies}
use linux_iot_gateway.HandBridge.Uart.Writes
use linux_iot_gateway.HandBridge.Uart.Writes.{
  Accounts, write_uart-Accounts, is_returned, write_uart-is_returned, open_uart_no_leak,
}

parses : parse_ack (codes "ACK:042 OK\r\n") ≡ some (42, AckStatus.ok)
unfolding parse_ack strip_line_end AckParser.parse_text AckParser.scan_seq AckParser.parse_tail
    AckParser.parse_status
parses = refl

write_uart-Accounts_example :
    Accounts
      (codes "HAND")
      (write_uart (some 3) (codes "HAND") (wrote 1 ∷ interrupted ∷ wrote 3 ∷ []))
write_uart-Accounts_example =
    write_uart-Accounts 3 (codes "HAND") (wrote 1 ∷ interrupted ∷ wrote 3 ∷ [])

abbrev refusing_port : PortReplies
refusing_port = record { open_fd = some 3; getattr_ok = true; speed_ok = true; setattr_ok = false }

open_uart_no_leak_example :
    let o = open_uart 115200 refusing_port in
    (Writes.descriptors o.uart_fd ++ o.closed ≡ Writes.opened_at 115200 refusing_port)
    × (is_empty (Writes.descriptors o.uart_fd) ≡ not o.result)
open_uart_no_leak_example = open_uart_no_leak 115200 refusing_port

parse_ack_iff_example :
    (parse_ack (codes "ACK:042 OK\r\n") ≡ some (42, AckStatus.ok))
    ↔ Denotes (strip_line_end (codes "ACK:042 OK\r\n")) 42 AckStatus.ok
parse_ack_iff_example = parse_ack_iff (codes "ACK:042 OK\r\n") 42 AckStatus.ok
