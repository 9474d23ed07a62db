-- ===== src/UdpPing/Library/Laws.antt =====
-- The two programs leave no descriptor open.
use dirty_net.Prelude.{ℕ, ◌≡◌, ◌⊎◌, inl, inr, refl, List, [], ◌∷◌, ◌++◌, true, false, Bool-cases}
use dirty_net.Prelude.Int.{ℤ, pos, negsuc, is_negative}
use dirty_net.ByteOrder.{ByteOrder}
use dirty_net.Posix.Endpoint.{SockaddrIn, sockaddr_in_bytes, addr_info}
use dirty_net.Posix.UdpSocket.{
  Call, socket_gave, bind_gave, closes, sendto_gave, recvfrom_gave, World, Recvfrom, recv_failed,
  recv_got, destroy, move_construct, open_socket, bind_socket, send_to, receive, open_result,
  bind_result, fd_at, erase,
}
use dirty_net.Public.UdpSocket.{public_open, public_bind, public_send_to, public_receive}
use dirty_net.UdpPing.{client_greeting, server_response}
use dirty_net.UdpPing.Library.{
  Ended, leave, server_endpoint, local_endpoint, server_main, client_main,
}

-- The world behind the calls `made`, the last one first: the objects are those of before.
abbrev pub leaves : World → List Call → ℤ → List (List ℕ) → Ended
leaves w made c texts = record {
  world = record { sockets = w.sockets; calls = made ++ w.calls };
  code = c;
  printed = texts;
}

pub data ServerEnds (o : ByteOrder) (fd bound n : ℤ) (r : Recvfrom) (w : World)
    : Ended → Type 0 where
  no_socket :
      is_negative fd ≡ true
      → ServerEnds o fd bound n r w (leaves w (socket_gave fd ∷ []) (negsuc 0) [])
  not_bound :
      is_negative fd ≡ false
      → is_negative bound ≡ true
      → ServerEnds o fd bound n r w (
          leaves w
            (closes fd
              ∷ bind_gave fd (addr_info o (server_endpoint o).native_endpoint) bound
              ∷ socket_gave fd
              ∷ [])
            (negsuc 0)
            [])
  not_received :
      is_negative fd ≡ false
      → is_negative bound ≡ false
      → r ≡ recv_failed
      → ServerEnds o fd bound n r w (
          leaves w
            (closes fd
              ∷ recvfrom_gave fd 65507
              ∷ bind_gave fd (addr_info o (server_endpoint o).native_endpoint) bound
              ∷ socket_gave fd
              ∷ [])
            (negsuc 0)
            [])
  answered :
      (bytes : List ℕ) (client : SockaddrIn) (c : ℤ)
      → is_negative fd ≡ false
      → is_negative bound ≡ false
      → r ≡ recv_got bytes client
      → ((is_negative n ≡ true) × (c ≡ negsuc 0)) ⊎ ((is_negative n ≡ false) × (c ≡ pos 0))
      → ServerEnds o fd bound n r w (
          leaves w
            (closes fd
              ∷ sendto_gave fd server_response (sockaddr_in_bytes o client, 16) n
              ∷ recvfrom_gave fd 65507
              ∷ bind_gave fd (addr_info o (server_endpoint o).native_endpoint) bound
              ∷ socket_gave fd
              ∷ [])
            c
            (bytes ∷ []))

-- sendto's address is 127.0.0.1, port 8090.
pub data ClientEnds (o : ByteOrder) (fd n : ℤ) (r : Recvfrom) (w : World) : Ended → Type 0 where
  no_socket :
      is_negative fd ≡ true → ClientEnds o fd n r w (leaves w (socket_gave fd ∷ []) (negsuc 0) [])
  not_sent :
      is_negative fd ≡ false
      → is_negative n ≡ true
      → ClientEnds o fd n r w (
          leaves w
            (closes fd
              ∷ sendto_gave fd client_greeting (addr_info o (local_endpoint o).native_endpoint) n
              ∷ socket_gave fd
              ∷ [])
            (negsuc 0)
            [])
  not_received :
      is_negative fd ≡ false
      → is_negative n ≡ false
      → r ≡ recv_failed
      → ClientEnds o fd n r w (
          leaves w
            (closes fd
              ∷ recvfrom_gave fd 65507
              ∷ sendto_gave fd client_greeting (addr_info o (local_endpoint o).native_endpoint) n
              ∷ socket_gave fd
              ∷ [])
            (negsuc 0)
            [])
  printed_answer :
      (bytes : List ℕ) (server : SockaddrIn)
      → is_negative fd ≡ false
      → is_negative n ≡ false
      → r ≡ recv_got bytes server
      → ClientEnds o fd n r w (
          leaves w
            (closes fd
              ∷ recvfrom_gave fd 65507
              ∷ sendto_gave fd client_greeting (addr_info o (local_endpoint o).native_endpoint) n
              ∷ socket_gave fd
              ∷ [])
            (pos 0)
            (bytes ∷ []))

-- The destructor closes the descriptor.
pub leave_done :
    (fd : ℤ) (c : ℤ) (texts : List (List ℕ)) (fds : List ℤ) (calls : List Call)
    → is_negative fd ≡ false
    → leave 0 c texts (record { sockets = fd ∷ fds; calls = calls }) ≡ record {
      world = record { sockets = fds; calls = closes fd ∷ calls };
      code = c;
      printed = texts;
    }
unfolding destroy fd_at erase
leave_done fd c texts fds calls e = rw e refl

server_received :
    (o : ByteOrder) (fd bound n : ℤ) (r : Recvfrom) (w : World)
    → is_negative fd ≡ false
    → is_negative bound ≡ false
    → ServerEnds o fd bound n r w (server_main o fd bound r n w)
unfolding server_main public_bind bind_socket bind_result fd_at erase move_construct destroy send_to
    receive public_send_to public_receive addr_info
server_received o fd bound n recv_failed w e f =
    rw (e, f) (rw e (rw (leave_done fd (negsuc 0) [] _ _ e) (not_received e f refl)))
server_received o fd bound n (recv_got bytes client) w e f = elim (Bool-cases (is_negative n)) [
  | inl g ↦
      rw (e, f)
        (rw e (
          rw g (
            rw (leave_done fd (negsuc 0) (bytes ∷ []) _ _ e)
              (answered bytes client (negsuc 0) e f refl (inl (g, refl))))))
  | inr g ↦
      rw (e, f)
        (rw e (
          rw g (
            rw (leave_done fd (pos 0) (bytes ∷ []) _ _ e)
              (answered bytes client (pos 0) e f refl (inr (g, refl))))))
]

server_main-ServerEnds :
    (o : ByteOrder) (fd bound n : ℤ) (r : Recvfrom) (w : World)
    → ServerEnds o fd bound n r w (server_main o fd bound r n w)
unfolding server_main public_bind bind_socket bind_result fd_at erase move_construct destroy send_to
    receive public_send_to public_receive addr_info
server_main-ServerEnds o fd bound n r w = elim (Bool-cases (is_negative fd)) [
  | inl e ↦ rw e (no_socket e)
  | inr e ↦ elim (Bool-cases (is_negative bound)) [
    | inl f ↦ rw (e, f) (not_bound e f)
    | inr f ↦ server_received o fd bound n r w e f
  ]
]

client_received :
    (o : ByteOrder) (fd n : ℤ) (r : Recvfrom) (w : World)
    → is_negative fd ≡ false
    → is_negative n ≡ false
    → ClientEnds o fd n r w (client_main o fd n r w)
unfolding client_main public_open open_socket open_result fd_at erase move_construct destroy send_to
    receive public_send_to public_receive
client_received o fd n recv_failed w e f =
    rw (e, f) (rw e (rw (leave_done fd (negsuc 0) [] _ _ e) (not_received e f refl)))
client_received o fd n (recv_got bytes server) w e f =
    rw (e, f)
      (rw e (rw (leave_done fd (pos 0) (bytes ∷ []) _ _ e) (printed_answer bytes server e f refl)))

client_main-ClientEnds :
    (o : ByteOrder) (fd n : ℤ) (r : Recvfrom) (w : World)
    → ClientEnds o fd n r w (client_main o fd n r w)
unfolding client_main public_open open_socket open_result fd_at erase move_construct destroy send_to
    receive public_send_to public_receive
client_main-ClientEnds o fd n r w = elim (Bool-cases (is_negative fd)) [
  | inl e ↦ rw e (no_socket e)
  | inr e ↦ elim (Bool-cases (is_negative n)) [
    | inl f ↦ rw (e, f) (rw (leave_done fd _ _ _ _ e) (not_sent e f))
    | inr f ↦ client_received o fd n r w e f
  ]
]

-- The main functions of udp-ping over the library end in one of these ways, whatever the calls return; on each the objects
-- are those of before, and a descriptor that socket() gave is closed by the last call. The server answers a message,
-- whole as received, to the address that recvfrom gave, and returns 0 exactly if that is sent; the client
-- prints the answer to its client_greeting, which goes to 127.0.0.1 and port 8090. A failure returns -1.
pub mains-Ends :
    (o : ByteOrder) (fd bound n : ℤ) (r : Recvfrom) (w : World)
    → ServerEnds o fd bound n r w (server_main o fd bound r n w)
      × ClientEnds o fd n r w (client_main o fd n r w)
mains-Ends o fd bound n r w =
    (server_main-ServerEnds o fd bound n r w, client_main-ClientEnds o fd n r w)
