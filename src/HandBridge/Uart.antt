-- ===== src/HandBridge/Uart.antt =====
-- ros2_ws/src/hand_bridge/src/hand_bridge_node.cpp: `open_uart` and `write_uart`.
-- What the kernel answers is an argument: a record of results, or the results of `write` in order.
pub mod Writes
use linux_iot_gateway.Common.{
  ℕ, suc, Bool, true, false, not, List, [], ◌∷◌, ◌++◌, Option, none, some, ◌==◌, Bytes,
  if◌then◌else◌, take, drop,
}

-- `open`, `tcgetattr`, `cfsetispeed` and `cfsetospeed`, `tcsetattr`: the descriptor, if it is not
-- negative, and whether the others return 0.
pub record PortReplies : Type 0 where
  pub open_fd : Option ℕ
  pub getattr_ok : Bool
  pub speed_ok : Bool
  pub setattr_ok : Bool

-- `uart_fd_` afterwards, with `none` for -1, the descriptors that were closed, and the result.
pub record Opened : Type 0 where
  pub uart_fd : Option ℕ
  pub closed : List ℕ
  pub result : Bool

abbrev close_port : ℕ → Opened
close_port fd = record { uart_fd = none; closed = fd ∷ []; result = false }

-- The configuration of an open port.
unfoldable pub configure : PortReplies → ℕ → Opened
configure replies fd =
    if not replies.getattr_ok
    then close_port fd
    else if not replies.speed_ok
    then close_port fd
    else if not replies.setattr_ok
    then close_port fd
    else record { uart_fd = some fd; closed = []; result = true }

-- The node starts with `uart_fd_ = -1`.
unfoldable pub open_uart : ℕ → PortReplies → Opened
unfolding configure
open_uart baud_rate replies =
    if not (baud_rate == 115200)
    then record { uart_fd = none; closed = []; result = false }
    else elim replies.open_fd [
      | none ↦ record { uart_fd = none; closed = []; result = false }
      | some fd ↦ configure replies fd
    ]

-- One return of `write`: a count of bytes, an `EINTR`, or another error.
pub data WriteReply : Type 0 where
  wrote : ℕ → WriteReply
  interrupted : WriteReply
  failed : WriteReply

-- What the loop does with the replies that it gets: it returns, having put out some bytes, or it
-- still waits for one more.
pub data Written : Type 0 where
  returned : Bool → Bytes → Written
  waiting : Bytes → Written

-- The loop, on the bytes that are left and those put out; a count of 0 is the error `ret == 0`.
unfoldable pub write_loop : List WriteReply → Bytes → Bytes → Written
write_loop replies [] out = returned true out
write_loop [] (c ∷ left) out = waiting out
write_loop (wrote n ∷ replies) (c ∷ left) out =
    let rest = write_loop replies (drop n (c ∷ left)) (out ++ take n (c ∷ left)) in
    if n == 0 then returned false out else rest
write_loop (interrupted ∷ replies) (c ∷ left) out = write_loop replies (c ∷ left) out
write_loop (failed ∷ replies) (c ∷ left) out = returned false out

unfoldable pub write_uart : Option ℕ → Bytes → List WriteReply → Written
unfolding write_loop
write_uart none bytes replies = returned false []
write_uart (some fd) bytes replies = write_loop replies bytes []
