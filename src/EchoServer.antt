-- ===== src/EchoServer.antt =====
-- examples/day04_tcp_echo_server.c: a server for one client, which sends back what it receives. The
-- replies of the system calls are inputs; what is printed is left out.
pub mod Echoes
use linux_iot_gateway.Common.{
  ℕ, suc, Bool, true, false, List, [], ◌∷◌, ◌++◌, Option, none, some, Bytes, if◌then◌else◌, take,
  drop,
}

-- `send` takes one byte and so many more of what it is given, or is interrupted, or fails or takes
-- nothing.
pub data SendReply : Type 0 where
  sent : ℕ → SendReply
  interrupted failed : SendReply

-- `recv` gives what has come, of which nothing here depends on its 255 bytes at most; nothing when the client has closed the connection, or is interrupted,
-- or fails.
pub data RecvReply : Type 0 where
  received : Bytes → RecvReply
  interrupted failed : RecvReply

-- The replies that are left, what is on the wire, and whether 0 is returned: `none` while a call
-- waits.
pub record Sent : Type 0 where
  pub replies : List SendReply
  pub wire : Bytes
  pub result : Option Bool

-- Behind a `send` that has put so much on the wire.
abbrev put_before : Bytes → Sent → Sent
put_before wire s = record s { wire = wire ++ s.wire }

-- `while (sent < length)`, with the bytes that are left to send.
unfoldable pub send_all : List SendReply → Bytes → Sent
send_all replies [] = record { replies = replies; wire = []; result = some true }
send_all [] (byte ∷ left) = record { replies = []; wire = []; result = none }
send_all (sent n ∷ replies) (byte ∷ left) =
    put_before (byte ∷ take n left) (send_all replies (drop n left))
send_all (SendReply.interrupted ∷ replies) (byte ∷ left) = send_all replies (byte ∷ left)
send_all (SendReply.failed ∷ replies) (byte ∷ left) = record {
  replies = replies;
  wire = [];
  result = some false;
}

-- What is on the wire, and the exit status, `none` while a call waits.
pub record Echoed : Type 0 where
  pub wire : Bytes
  pub exit_status : Option ℕ

-- Behind `send_all`, with the rest of the loop.
abbrev behind_send : Sent → Echoed → Echoed
behind_send s rest = elim s.result [
  | some true ↦ record rest { wire = s.wire ++ rest.wire }
  | some false ↦ record { wire = s.wire; exit_status = some 1 }
  | none ↦ record { wire = s.wire; exit_status = none }
]

unfoldable pub echo_loop : List RecvReply → List SendReply → Echoed
unfolding send_all
echo_loop [] sends = record { wire = []; exit_status = none }
echo_loop (received [] ∷ recvs) sends = record { wire = []; exit_status = some 0 }
echo_loop (received (byte ∷ text) ∷ recvs) sends =
    let s = send_all sends (byte ∷ text) in behind_send s (echo_loop recvs s.replies)
echo_loop (RecvReply.interrupted ∷ recvs) sends = echo_loop recvs sends
echo_loop (RecvReply.failed ∷ recvs) sends = record { wire = []; exit_status = some 1 }

pub record Replies : Type 0 where
  pub socket : Option ℕ
  pub setsockopt : Bool
  pub bind : Bool
  pub listen : Bool
  pub accept : Option ℕ
  pub recvs : List RecvReply
  pub sends : List SendReply

-- The descriptors in the order in which they are closed.
pub record Ended : Type 0 where
  pub echoed : Echoed
  pub closed : List ℕ

abbrev close : Option ℕ → List ℕ
close none = []
close (some fd) = fd ∷ []

-- `cleanup`; a server that waits does not come to it.
unfoldable pub cleanup : Option ℕ → Option ℕ → Echoed → Ended
cleanup client_fd server_fd e = record {
  echoed = e;
  closed = elim e.exit_status [ none ↦ [] | some status ↦ close client_fd ++ close server_fd ];
}

abbrev failure : Echoed
failure = record { wire = []; exit_status = some 1 }

-- Behind `accept`.
unfoldable pub serve : Option ℕ → ℕ → Replies → Ended
unfolding echo_loop cleanup
serve none server_fd r = cleanup none (some server_fd) failure
serve (some client_fd) server_fd r =
    cleanup (some client_fd) (some server_fd) (echo_loop r.recvs r.sends)

-- Behind `socket`.
unfoldable pub listens : Option ℕ → Replies → Ended
unfolding serve cleanup
listens none r = cleanup none none failure
listens (some server_fd) r =
    if r.setsockopt
    then if r.bind
      then if r.listen then serve r.accept server_fd r else cleanup none (some server_fd) failure
      else cleanup none (some server_fd) failure
    else cleanup none (some server_fd) failure

unfoldable pub main : Replies → Ended
unfolding listens
main r = listens r.socket r
