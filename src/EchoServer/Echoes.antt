-- ===== src/EchoServer/Echoes.antt =====
-- What the client gets back, and what the process holds at its end.
use linux_iot_gateway.Common.{
  ℕ, Bool, true, false, List, [], ◌∷◌, ◌++◌, Option, none, some, Bytes, if◌then◌else◌, take, drop,
  take-append-drop, append_assoc, ◌≡◌, refl, sym, ap, ◌∙◌, arith, ◌&&◌,
}
use linux_iot_gateway.EchoServer.{
  SendReply, RecvReply, received, sent, Sent, Echoed, Replies, Ended, send_all, echo_loop, cleanup,
  behind_send, failure, close, serve, listens, main,
}

-- Something of the text is on the wire, all of it if 0 has been returned.
abbrev SendsOf : Bytes → Sent → Type 0
SendsOf text s = ((left : Bytes) × (text ≡ s.wire ++ left)) × (s.result ≡ some true → s.wire ≡ text)

send_all-SendsOf : (replies : List SendReply) (text : Bytes) → SendsOf text (send_all replies text)
unfolding send_all
send_all-SendsOf replies [] = (([], refl), λ e. refl)
send_all-SendsOf [] (byte ∷ text) = ((byte ∷ text, refl), λ e. cc)
send_all-SendsOf (sent n ∷ replies) (byte ∷ text) =
    let ((left, e), all) = send_all-SendsOf replies (drop n text) in
    let s = send_all replies (drop n text) in
    (
      (
        left,
        ap (◌∷◌ byte) (
            sym (take-append-drop n text)
            ∙ ap (◌++◌ (take n text)) e
            ∙ sym (append_assoc (take n text) s.wire left)),
      ),
      λ good. ap (◌∷◌ byte) (ap (◌++◌ (take n text)) (all good) ∙ take-append-drop n text),
    )
send_all-SendsOf (SendReply.interrupted ∷ replies) (byte ∷ text) =
    send_all-SendsOf replies (byte ∷ text)
send_all-SendsOf (SendReply.failed ∷ replies) (byte ∷ text) = ((byte ∷ text, refl), λ e. cc)

-- What has come before the client has closed the connection, or `recv` has failed.
abbrev pub text_of : List RecvReply → Bytes
text_of [] = []
text_of (received [] ∷ recvs) = []
text_of (received (byte ∷ text) ∷ recvs) = (byte ∷ text) ++ text_of recvs
text_of (RecvReply.interrupted ∷ recvs) = text_of recvs
text_of (RecvReply.failed ∷ recvs) = []

-- Something of the text is on the wire, all of it if the exit status is 0.
abbrev pub Echoes : Bytes → Echoed → Type 0
Echoes text e =
    ((left : Bytes) × (text ≡ e.wire ++ left)) × (e.exit_status ≡ some 0 → e.wire ≡ text)

behind_send-Echoes :
    (text rest : Bytes) (s : Sent) (result : Option Bool) (e : Echoed)
    → s.result ≡ result
    → SendsOf text s
    → Echoes rest e
    → Echoes (text ++ rest) (behind_send (record s { result = result }) e)
behind_send-Echoes text rest s (some true) e is ((left, split), all) ((left', split'), all') = (
  (
    left',
    ap (λ t. t ++ rest) (sym (all is))
        ∙ ap (◌++◌ s.wire) split'
        ∙ sym (append_assoc s.wire e.wire left'),
  ),
  λ zero_status. ap (λ t. t ++ e.wire) (all is) ∙ ap (◌++◌ text) (all' zero_status),
)
behind_send-Echoes text rest s (some false) e is ((left, split), all) h =
    ((left ++ rest, ap (λ t. t ++ rest) split ∙ append_assoc s.wire left rest), λ bad. cc)
behind_send-Echoes text rest s none e is ((left, split), all) h =
    ((left ++ rest, ap (λ t. t ++ rest) split ∙ append_assoc s.wire left rest), λ bad. cc)

echo_loop-Echoes :
    (recvs : List RecvReply) (sends : List SendReply)
    → Echoes (text_of recvs) (echo_loop recvs sends)
unfolding echo_loop
echo_loop-Echoes [] sends = (([], refl), λ e. refl)
echo_loop-Echoes (received [] ∷ recvs) sends = (([], refl), λ e. refl)
echo_loop-Echoes (received (byte ∷ text) ∷ recvs) sends =
    let s = send_all sends (byte ∷ text) in
    behind_send-Echoes (byte ∷ text) (text_of recvs) s s.result (echo_loop recvs s.replies) refl
      (send_all-SendsOf sends (byte ∷ text)) (echo_loop-Echoes recvs s.replies)
echo_loop-Echoes (RecvReply.interrupted ∷ recvs) sends = echo_loop-Echoes recvs sends
echo_loop-Echoes (RecvReply.failed ∷ recvs) sends = (([], refl), λ e. refl)

-- The descriptors that the system hands out, the last first: that of `socket`, and that of `accept`
-- if the calls between them succeed.
abbrev pub opened : Option ℕ → Replies → List ℕ
opened none r = []
opened (some server_fd) r =
    (if r.setsockopt && r.bind && r.listen then close r.accept else []) ++ server_fd ∷ []

-- What is on the wire, and what is closed: all descriptors by a process that has ended.
abbrev pub Serves : Bytes → List ℕ → Ended → Type 0
Serves text fds e =
    Echoes text e.echoed × (e.closed ≡ elim e.echoed.exit_status [ none ↦ [] | some status ↦ fds ])

cleanup-Serves :
    (text : Bytes) (client_fd server_fd : Option ℕ) (e : Echoed)
    → Echoes text e
    → Serves text (close client_fd ++ close server_fd) (cleanup client_fd server_fd e)
unfolding cleanup
cleanup-Serves text client_fd server_fd e h = (h, refl)

failure-Echoes : (text : Bytes) → Echoes text failure
failure-Echoes text = ((text, refl), λ e. absurd (omega (arith, ap code e)))
  where
    code : Option ℕ → ℕ
    code none = 0
    code (some status) = status

serve-Serves :
    (accepted : Option ℕ) (server_fd : ℕ) (r : Replies)
    → Serves (text_of r.recvs) (close accepted ++ server_fd ∷ []) (serve accepted server_fd r)
unfolding serve
serve-Serves none server_fd r =
    cleanup-Serves (text_of r.recvs) none (some server_fd) failure
      (failure-Echoes (text_of r.recvs))
serve-Serves (some client_fd) server_fd r =
    cleanup-Serves (text_of r.recvs) (some client_fd) (some server_fd) (echo_loop r.recvs r.sends)
      (echo_loop-Echoes r.recvs r.sends)

listens-Serves :
    (socket : Option ℕ) (r : Replies)
    → Serves (text_of r.recvs) (opened socket r) (listens socket r)
unfolding listens
listens-Serves none r =
    cleanup-Serves (text_of r.recvs) none none failure (failure-Echoes (text_of r.recvs))
listens-Serves (some server_fd) r = by_calls r.setsockopt r.bind r.listen
  where
    gives_up : Serves (text_of r.recvs) (server_fd ∷ []) (cleanup none (some server_fd) failure)
    gives_up =
        cleanup-Serves (text_of r.recvs) none (some server_fd) failure
          (failure-Echoes (text_of r.recvs))

    by_calls :
        (a b c : Bool)
        → Serves
            (text_of r.recvs)
            ((if a && b && c then close r.accept else []) ++ server_fd ∷ [])
            (if a
              then if b
                then if c then serve r.accept server_fd r else cleanup none (some server_fd) failure
                else cleanup none (some server_fd) failure
              else cleanup none (some server_fd) failure)
    by_calls true true true = serve-Serves r.accept server_fd r
    by_calls true true false = gives_up
    by_calls true false c = gives_up
    by_calls false b c = gives_up

-- Whatever the system calls reply, what is on the wire is a beginning of what has been received, and
-- all of it if the exit status is 0; a process that comes to its end has closed every descriptor
-- that it has been handed, once and the client's first, and one that waits has closed none.
pub main-Serves : (r : Replies) → Serves (text_of r.recvs) (opened r.socket r) (main r)
unfolding main
main-Serves r = listens-Serves r.socket r
