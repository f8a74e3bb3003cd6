-- ===== src/HandBridge/Uart/Writes.antt =====
-- What `write_uart` has put out when it returns, when it returns, and what a failed opening leaves.
use linux_iot_gateway.Common.{
  ℕ, suc, ◌≤◌, Bool, true, false, not, List, [], ◌∷◌, ◌++◌, Option, none, some, ◌≡◌, refl, ap,
  subst, ◌∙◌, inl, inr, arith, ◌==◌, Bytes, if◌then◌else◌, take, drop, take-append-drop,
  append_assoc, length, length-drop, is_empty, Bool-cases,
}
use linux_iot_gateway.HandBridge.Uart.{
  PortReplies, open_uart, WriteReply, wrote, interrupted, failed, Written, returned, waiting,
  write_loop, write_uart,
}

-- The bytes put out and those left make up the data; none are left exactly on success.
abbrev pub Accounts : Bytes → Written → Type 0
Accounts whole (returned done out) = (left : Bytes) × (out ++ left ≡ whole) × (is_empty left ≡ done)
Accounts whole (waiting out) = (left : Bytes) × (out ++ left ≡ whole) × (is_empty left ≡ false)

write_loop-Accounts :
    (replies : List WriteReply) (left out : Bytes)
    → Accounts (out ++ left) (write_loop replies left out)
unfolding write_loop
write_loop-Accounts [] [] out = ([], refl, refl)
write_loop-Accounts (x ∷ xs) [] out = ([], refl, refl)
write_loop-Accounts [] (c ∷ left) out = (c ∷ left, refl, refl)
write_loop-Accounts (wrote n ∷ replies) (c ∷ left) out = elim (Bool-cases (n == 0)) [
  | inl nothing ↦ rw nothing (c ∷ left, refl, refl)
  | inr some_bytes ↦ rw some_bytes (
      subst
        (λ whole.
          Accounts whole (write_loop replies (drop n (c ∷ left)) (out ++ take n (c ∷ left))))
        (append_assoc out (take n (c ∷ left)) (drop n (c ∷ left))
          ∙ ap (◌++◌ out) (take-append-drop n (c ∷ left)))
        (write_loop-Accounts replies (drop n (c ∷ left)) (out ++ take n (c ∷ left))))
]
write_loop-Accounts (interrupted ∷ replies) (c ∷ left) out =
    write_loop-Accounts replies (c ∷ left) out
write_loop-Accounts (failed ∷ replies) (c ∷ left) out = (c ∷ left, refl, refl)

-- Whatever `write` answers on an open port, the bytes put out are a prefix of the data; they are all of it exactly
-- when the result is true.
pub write_uart-Accounts :
    (fd : ℕ) (bytes : Bytes) (replies : List WriteReply)
    → Accounts bytes (write_uart (some fd) bytes replies)
unfolding write_uart
write_uart-Accounts fd bytes replies = write_loop-Accounts replies bytes []

-- The replies that are no interruption.
abbrev pub answers : List WriteReply → ℕ
answers [] = 0
answers (wrote n ∷ replies) = suc (answers replies)
answers (interrupted ∷ replies) = answers replies
answers (failed ∷ replies) = suc (answers replies)

abbrev pub is_returned : Written → Bool
is_returned (returned done out) = true
is_returned (waiting out) = false

write_loop-is_returned :
    (replies : List WriteReply) (left out : Bytes)
    → length left ≤ answers replies
    → is_returned (write_loop replies left out) ≡ true
unfolding write_loop
write_loop-is_returned [] [] out h = refl
write_loop-is_returned (x ∷ xs) [] out h = refl
write_loop-is_returned [] (c ∷ left) out h = absurd (omega arith)
write_loop-is_returned (wrote n ∷ replies) (c ∷ left) out h = elim (Bool-cases (n == 0)) [
  | inl nothing ↦ rw nothing
  | inr some_bytes ↦ rw some_bytes (
      write_loop-is_returned replies (drop n (c ∷ left)) (out ++ take n (c ∷ left))
        (ground (arith, length-drop n (c ∷ left))))
]
write_loop-is_returned (interrupted ∷ replies) (c ∷ left) out h =
    write_loop-is_returned replies (c ∷ left) out h
write_loop-is_returned (failed ∷ replies) (c ∷ left) out h = refl

-- However often it is interrupted, and however short the writes are, `write_uart` returns after
-- at most one answer for each byte.
pub write_uart-is_returned :
    (fd : Option ℕ) (bytes : Bytes) (replies : List WriteReply)
    → length bytes ≤ answers replies
    → is_returned (write_uart fd bytes replies) ≡ true
unfolding write_uart
write_uart-is_returned none bytes replies h = refl
write_uart-is_returned (some fd) bytes replies h = write_loop-is_returned replies bytes [] h

abbrev pub descriptors : Option ℕ → List ℕ
descriptors none = []
descriptors (some fd) = fd ∷ []

-- The descriptors that `open` was asked for, at this baud rate.
abbrev pub opened_at : ℕ → PortReplies → List ℕ
opened_at baud_rate replies = if baud_rate == 115200 then descriptors replies.open_fd else []

-- `open_uart` leaks no descriptor: one that it opened is closed, with `uart_fd_` at -1, or kept in
-- `uart_fd_`, and it is kept exactly when the result is true.
pub open_uart_no_leak :
    (baud_rate : ℕ) (replies : PortReplies)
    → let o = open_uart baud_rate replies in
      (descriptors o.uart_fd ++ o.closed ≡ opened_at baud_rate replies)
      × (is_empty (descriptors o.uart_fd) ≡ not o.result)
unfolding open_uart
open_uart_no_leak baud_rate replies = ground arith
