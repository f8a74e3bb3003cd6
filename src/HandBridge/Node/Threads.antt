-- ===== src/HandBridge/Node/Threads.antt =====
-- The steps of the threads and the node's invariant.
use linux_iot_gateway.Common.{
  ℕ, Bool, true, false, not, ◌&&◌, List, [], ◌∷◌, ◌++◌, some, ◌≡◌, inl, inr, arith, ◌==◌,
  if◌then◌else◌, is_empty, All, All-append, Bool-cases, Option-cases, subst,
}
use linux_iot_gateway.HandBridge.AckParser.{parse_ack}
use linux_iot_gateway.HandBridge.RetryPolicy
use linux_iot_gateway.HandBridge.RetryPolicy.{
  RetryPolicy, Request, RetryFrame, is_sendable, max_retries,
}
use linux_iot_gateway.HandBridge.RetryPolicy.Calls.{Call, apply}
use linux_iot_gateway.HandBridge.Uart.{WriteReply, Written, returned, waiting, write_uart}
use linux_iot_gateway.HandBridge.Node
use linux_iot_gateway.HandBridge.Node.{
  Node, Callback, TxWorker, RetryWorker, RxWorker, valid_command, map_to_uart_command, new_node,
}
use linux_iot_gateway.HandBridge.Node.Sound.{Known, transmit-Sound}
use linux_iot_gateway.HandBridge.Node.Polled.{poll-AllKnown}
use linux_iot_gateway.HandBridge.Node.Invariant.{held_by_tx, held_by_retry, IsValid, call-IsValid}

take_frame-IsValid :
    (fs : List RetryFrame) (n : Node)
    → All (Known n.retry_policy) fs
    → IsValid n
    → IsValid (Node.take_frame fs n)
take_frame-IsValid [] n k v = v
take_frame-IsValid (f ∷ rest) n (k, ks) v = record {
  core = (v.core.0, ks, (k, tt), v.core.3);
  callback_known = v.callback_known;
  prepared = v.prepared;
}

tx_take-IsValid : (n : Node) → IsValid n → IsValid (Node.tx_take n)
unfolding Node.tx_take
tx_take-IsValid n v =
    elim n.stop_worker
      as (λ stop.
        IsValid (
          if stop then record n { tx = TxWorker.stopped } else Node.take_frame n.command_queue n)) [
            | true ↦ record {
              core = (v.core.0, v.core.1, tt, v.core.3);
              callback_known = v.callback_known;
              prepared = v.prepared;
            }
            | false ↦ take_frame-IsValid n.command_queue n v.core.1 v
          ]

-- The frame of a request that may be sent.
should_transmit-is_sendable :
    (p : RetryPolicy) (f : RetryFrame)
    → Known p f
    → RetryPolicy.should_transmit p f.seq ≡ true
    → (r : Request) × (RetryPolicy.find p f.seq ≡ some r)
      × (r.frame ≡ f.frame)
      × (is_sendable r.state ≡ true)
unfolding RetryPolicy.should_transmit
should_transmit-is_sendable p f (r, e, same) h = (r, e, same, ground arith)

finish_send-IsValid :
    (f : RetryFrame) (now : ℕ) (w : Written) (n : Node)
    → Known n.retry_policy f
    → RetryPolicy.should_transmit n.retry_policy f.seq ≡ true
    → IsValid n
    → IsValid (Node.finish_send f now w n)
unfolding apply
finish_send-IsValid f now (returned true out) n k may v =
    let (r, e, same, sendable) = should_transmit-is_sendable n.retry_policy f k may in
    let moved = call-IsValid n (Call.mark_sent f.seq now) tt v in
    record {
      core = (
        transmit-Sound n.retry_policy f now n.transmitted r e same sendable v.core.0,
        moved.core.1,
        tt,
        moved.core.3,
      );
      callback_known = moved.callback_known;
      prepared = v.prepared;
    }
finish_send-IsValid f now (returned false out) n k may v =
    let moved = call-IsValid n (Call.mark_send_failed f.seq) tt v in
    record {
      core = (moved.core.0, moved.core.1, tt, moved.core.3);
      callback_known = moved.callback_known;
      prepared = v.prepared;
    }
finish_send-IsValid f now (waiting out) n k may v = v

tx_send-IsValid :
    (f : RetryFrame) (replies : List WriteReply) (now : ℕ) (n : Node)
    → Known n.retry_policy f
    → IsValid n
    → IsValid (Node.tx_send f replies now n)
unfolding Node.tx_send
tx_send-IsValid f replies now n k v =
    elim (Bool-cases (RetryPolicy.should_transmit n.retry_policy f.seq)) [
      | inl may ↦
          rw (may, Node.tx_send)
            (finish_send-IsValid f now (write_uart n.uart_fd f.frame replies) n k may v)
      | inr stale ↦
          rw (stale, Node.tx_send)
            (record {
              core = (v.core.0, v.core.1, tt, v.core.3);
              callback_known = v.callback_known;
              prepared = v.prepared;
            })
    ]

pub tx_step-IsValid :
    (t : TxWorker) (replies : List WriteReply) (now : ℕ) (n : Node)
    → n.tx ≡ t
    → IsValid n
    → IsValid (Node.tx_step t replies now n)
unfolding Node.tx_step
tx_step-IsValid TxWorker.waits replies now n e v = tx_take-IsValid n v
tx_step-IsValid (TxWorker.holds f) replies now n e v =
    tx_send-IsValid f replies now n
      (subst (λ t. All (Known n.retry_policy) (held_by_tx t)) e v.core.2).0 v
tx_step-IsValid TxWorker.stopped replies now n e v = v

rx_newline-IsValid :
    (now : ℕ) (rx : RxWorker) (n : Node)
    → IsValid n
    → IsValid (record n { retry_policy = Node.rx_newline now rx n.retry_policy })
unfolding Node.rx_newline apply
rx_newline-IsValid now rx n v =
    elim (Bool-cases (not rx.discard_line && not (is_empty rx.rx_line))) [
      | inl whole ↦ elim (Option-cases (parse_ack (rx.rx_line ++ b'\n' ∷ []))) [
        | inl bad ↦ rw (whole, bad, Node.rx_newline) v
        | inr ((seq, status), good) ↦
            rw (whole, good, Node.rx_newline) (call-IsValid n (Call.on_ack seq status now) tt v)
      ]
      | inr skipped ↦ rw (skipped, Node.rx_newline) v
    ]

pub rx_byte-IsValid : (ch now : ℕ) (n : Node) → IsValid n → IsValid (Node.rx_byte ch now n)
unfolding Node.rx_byte
rx_byte-IsValid ch now n v = elim (Bool-cases (ch == b'\n')) [
  | inl end ↦
      let moved = rx_newline-IsValid now n.rx n v in
      rw (end, Node.rx_byte)
        (record {
          core = moved.core;
          callback_known = moved.callback_known;
          prepared = moved.prepared;
        })
  | inr other ↦
      rw (other, Node.rx_byte)
        (record { core = v.core; callback_known = v.callback_known; prepared = v.prepared })
]

retry_poll-IsValid : (now : ℕ) (n : Node) → IsValid n → IsValid (Node.retry_poll now n)
unfolding Node.retry_poll apply
retry_poll-IsValid now n v =
    elim n.retry_stop
      as (λ stop. IsValid (if stop then record n { retry = RetryWorker.stopped } else polled)) [
        | true ↦ record {
          core = (v.core.0, v.core.1, v.core.2, tt);
          callback_known = v.callback_known;
          prepared = v.prepared;
        }
        | false ↦ record {
          core = (
            moved.core.0,
            moved.core.1,
            moved.core.2,
            poll-AllKnown n.retry_policy now v.core.0.valid,
          );
          callback_known = moved.callback_known;
          prepared = moved.prepared;
        }
      ]
  where
    polled : Node
    polled = record n {
      retry_policy = (RetryPolicy.poll n.retry_policy now).0;
      retry = RetryWorker.queues (RetryPolicy.poll n.retry_policy now).1;
    }

    moved : IsValid (record n { retry_policy = (apply n.retry_policy (Call.poll now)).0 })
    moved = call-IsValid n (Call.poll now) tt v

retry_queue-IsValid :
    (f : RetryFrame) (rest : List RetryFrame) (n : Node)
    → Known n.retry_policy f
    → All (Known n.retry_policy) rest
    → IsValid n
    → IsValid (Node.retry_queue f rest n)
unfolding Node.retry_queue
retry_queue-IsValid f rest n k ks v =
    elim n.retry_stop
      as (λ stop. IsValid (
        if stop
        then record n { retry = RetryWorker.polls }
        else record (Node.enqueue_uart_command f false n).0 { retry = RetryWorker.queues rest })) [
          | true ↦ record {
            core = (v.core.0, v.core.1, v.core.2, tt);
            callback_known = v.callback_known;
            prepared = v.prepared;
          }
          | false ↦
              elim n.stop_worker
                as (λ stop.
                  IsValid
                    (record (if◌then◌else◌ {A = Node × Bool} stop (n, false)
                      (record n { command_queue = n.command_queue ++ f ∷ [] }, true)).0 {
                        retry = RetryWorker.queues rest;
                      })) [
                        | true ↦ record {
                          core = (v.core.0, v.core.1, v.core.2, ks);
                          callback_known = v.callback_known;
                          prepared = v.prepared;
                        }
                        | false ↦ record {
                          core = (
                            v.core.0,
                            All-append (Known n.retry_policy) n.command_queue (f ∷ []) v.core.1
                                (k, tt),
                            v.core.2,
                            ks,
                          );
                          callback_known = v.callback_known;
                          prepared = v.prepared;
                        }
                      ]
        ]

pub retry_step-IsValid :
    (t : RetryWorker) (now : ℕ) (n : Node)
    → n.retry ≡ t
    → IsValid n
    → IsValid (Node.retry_step t now n)
unfolding Node.retry_step
retry_step-IsValid RetryWorker.polls now n e v = retry_poll-IsValid now n v
retry_step-IsValid (RetryWorker.queues []) now n e v = record {
  core = (v.core.0, v.core.1, v.core.2, tt);
  callback_known = v.callback_known;
  prepared = v.prepared;
}
retry_step-IsValid (RetryWorker.queues (f ∷ rest)) now n e v =
    let (k, ks) = subst (λ t. All (Known n.retry_policy) (held_by_retry t)) e v.core.3 in
    retry_queue-IsValid f rest n k ks v
retry_step-IsValid RetryWorker.stopped now n e v = v
