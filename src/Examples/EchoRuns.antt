-- ===== src/Examples/EchoRuns.antt =====
-- A client that sends two texts, with a `send` that takes one part, and leaves.
use linux_iot_gateway.Common.{[], ◌∷◌, some, true, codes, ◌≡◌, refl}
use linux_iot_gateway.EchoServer.{SendReply, RecvReply, received, sent, Replies, Ended, main}
use linux_iot_gateway.EchoServer.Echoes.{Serves, text_of, main-Serves}

abbrev replies : Replies
replies = record {
  socket = some 3;
  setsockopt = true;
  bind = true;
  listen = true;
  accept = some 4;
  recvs =
      received (codes "hello") ∷ RecvReply.interrupted ∷ received (codes "you") ∷ received [] ∷ [];
  sends = sent 1 ∷ SendReply.interrupted ∷ sent 2 ∷ sent 2 ∷ [];
}

main-Serves_example : Serves (text_of replies.recvs) (4 ∷ 3 ∷ []) (main replies)
main-Serves_example = main-Serves replies

abbrev outcome : Ended
outcome = record {
  echoed = record { wire = codes "helloyou"; exit_status = some 0 };
  closed = 4 ∷ 3 ∷ [];
}

echoes : main replies ≡ outcome
unfolding main
echoes = refl
