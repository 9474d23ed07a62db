-- ===== src/UdpPing/Library/Exchange.antt =====
-- The two programs over the library against one another.
use dirty_net.Prelude.{ℕ, ◌≡◌, refl, ap, ◌∙◌, List, [], ◌∷◌, ◌++◌, false, only_one}
use dirty_net.Prelude.Int.{ℤ, pos, is_negative}
use dirty_net.ByteOrder.{ByteOrder}
use dirty_net.Posix.Endpoint.{SockaddrIn, sockaddr_in_bytes, addr_info}
use dirty_net.Posix.UdpSocket.{
  Call, socket_gave, bind_gave, closes, sendto_gave, recvfrom_gave, recv_got, destroy,
  move_construct, open_socket, bind_socket, send_to, receive, open_result, bind_result, fd_at,
  erase,
}
use dirty_net.Posix.UdpSocket.Ownership.Laws.{no_sockets}
use dirty_net.Public.UdpSocket.{public_open, public_bind, public_send_to, public_receive}
use dirty_net.UdpPing.{client_greeting, server_response}
use dirty_net.UdpPing.Library.{Ended, server_endpoint, local_endpoint, server_main, client_main}
use dirty_net.UdpPing.Library.Laws.{leaves, leave_done}

-- The datagrams that these calls have sent, with the addresses and their lengths.
abbrev pub sent : List Call → List (List ℕ × (List ℕ × ℕ))
sent [] = []
sent (sendto_gave fd bytes to n ∷ cs) = (bytes, to) ∷ sent cs
sent (_ ∷ cs) = sent cs

-- The runs of a server that receives a datagram, and of a client that receives an answer.
abbrev pub server_run : ByteOrder → ℤ → ℤ → ℤ → SockaddrIn → List ℕ → Ended
server_run o fd bound n sender d =
    leaves no_sockets
      (closes fd
        ∷ sendto_gave fd server_response (sockaddr_in_bytes o sender, 16) n
        ∷ recvfrom_gave fd 65507
        ∷ bind_gave fd (addr_info o (server_endpoint o).native_endpoint) bound
        ∷ socket_gave fd
        ∷ [])
      (pos 0) (d ∷ [])

abbrev pub client_run : ByteOrder → ℤ → ℤ → List ℕ → Ended
client_run o fd n d =
    leaves no_sockets
      (closes fd
        ∷ recvfrom_gave fd 65507
        ∷ sendto_gave fd client_greeting (addr_info o (local_endpoint o).native_endpoint) n
        ∷ socket_gave fd
        ∷ [])
      (pos 0) (d ∷ [])

pub server_answers :
    (o : ByteOrder) (fd bound n : ℤ) (sender : SockaddrIn) (d : List ℕ)
    → is_negative fd ≡ false
    → is_negative bound ≡ false
    → is_negative n ≡ false
    → server_main o fd bound (recv_got d sender) n no_sockets ≡ server_run o fd bound n sender d
unfolding server_main public_bind bind_socket bind_result fd_at erase move_construct destroy send_to
    receive public_send_to public_receive addr_info
server_answers o fd bound n sender d e f g =
    rw (e, f) (rw e (rw g (rw (leave_done fd (pos 0) (d ∷ []) _ _ e) refl)))

pub client_prints :
    (o : ByteOrder) (fd n : ℤ) (sender : SockaddrIn) (d : List ℕ)
    → is_negative fd ≡ false
    → is_negative n ≡ false
    → client_main o fd n (recv_got d sender) no_sockets ≡ client_run o fd n d
unfolding client_main public_open open_socket open_result fd_at erase move_construct destroy send_to
    receive public_send_to public_receive
client_prints o fd n sender d e f =
    rw (e, f) (rw e (rw (leave_done fd (pos 0) (d ∷ []) _ _ e) refl))

-- If no call of the two programs fails, the server's recvfrom gives a datagram that the client has sent to 127.0.0.1 and
-- port 8090, with a sender's address, and the client's recvfrom gives a datagram that the server has sent to this
-- address, then both main functions return 0, the server has printed the client's greeting and the
-- client the server's response, and each has closed its socket.
pub server_main-client_main :
    (o : ByteOrder) (fd bound n client_fd m : ℤ) (client server : SockaddrIn) (d answer : List ℕ)
    (before after before_answer after_answer : List (List ℕ × (List ℕ × ℕ)))
    → is_negative fd ≡ false
    → is_negative bound ≡ false
    → is_negative n ≡ false
    → is_negative client_fd ≡ false
    → is_negative m ≡ false
    → before ++ ((d, addr_info o (local_endpoint o).native_endpoint) ∷ after)
      ≡ sent (client_main o client_fd m (recv_got answer server) no_sockets).world.calls
    → before_answer ++ ((answer, (sockaddr_in_bytes o client, 16)) ∷ after_answer)
      ≡ sent (server_main o fd bound (recv_got d client) n no_sockets).world.calls
    → (server_main o fd bound (recv_got d client) n no_sockets
        ≡ server_run o fd bound n client client_greeting)
      × (client_main o client_fd m (recv_got answer server) no_sockets
          ≡ client_run o client_fd m server_response)
server_main-client_main o fd bound n client_fd m client server d answer before after before_answer
      after_answer e f g k l there back =
    let served = server_answers o fd bound n client d e f g in
    let played = client_prints o client_fd m server answer k l in
    let greeted : d ≡ client_greeting =
      ap (λ x. x.0) (only_one _ _ before after (there ∙ ap (λ x. sent x.world.calls) played)) in
    let answered : answer ≡ server_response =
      ap (λ x. x.0)
        (only_one _ _ before_answer after_answer (back ∙ ap (λ x. sent x.world.calls) served)) in
    (
      served ∙ ap (server_run o fd bound n client) greeted,
      played ∙ ap (client_run o client_fd m) answered,
    )
