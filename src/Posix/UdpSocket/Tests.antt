-- ===== src/Posix/UdpSocket/Tests.antt =====
-- Sockets opened, bound, moved and destroyed in a concrete order.
use dirty_net.Prelude.{◌≡◌, refl, [], ◌∷◌, arith}
use dirty_net.Prelude.Int.{pos, negsuc}
use dirty_net.ByteOrder.{little}
use dirty_net.Posix.Ip.{unexpected}
use dirty_net.Posix.Endpoint.{Endpoint, in6, zero_in6}
use dirty_net.Posix.UdpSocket.{
  error, World, fd_at, open_socket, bind_socket, move_construct, move_assign, recv_failed, receive,
}
use dirty_net.Posix.UdpSocket.Ownership.{
  Owned, Fresh, opens, binds, constructs, assigns, stop, then_step, opened, closed, one,
}
use dirty_net.Posix.UdpSocket.Ownership.Laws.{no_sockets, Steps-Owned, receive-move_construct}

abbrev nowhere : Endpoint
nowhere = in6 zero_in6

-- A socket on descriptor 3, a bind that fails on 4, a move, and a move onto itself.
abbrev moved : World
moved = move_assign 0 0 (
    move_construct 0
      (bind_socket little nowhere (pos 4) (negsuc 0) (open_socket (pos 3) no_sockets)))

moved_lost : moved.sockets ≡ negsuc 0 ∷ negsuc 0 ∷ []
unfolding move_assign move_construct bind_socket open_socket
moved_lost = refl

three-Fresh : Fresh (pos 3) no_sockets
unfolding Fresh opened closed
three-Fresh n e = refl

four-Fresh : Fresh (pos 4) (open_socket (pos 3) no_sockets)
unfolding Fresh opened closed one open_socket
four-Fresh n e = ground arith

Steps-Owned_example : Owned moved
unfolding move_assign move_construct bind_socket open_socket
Steps-Owned_example = Steps-Owned (
    then_step
      (then_step
        (then_step (then_step (stop no_sockets) (opens (pos 3) no_sockets three-Fresh))
          (binds little nowhere (pos 4) (negsuc 0) (open_socket (pos 3) no_sockets) four-Fresh))
        (constructs 0
          (bind_socket little nowhere (pos 4) (negsuc 0) (open_socket (pos 3) no_sockets))
          (omega arith)))
      (assigns 0 0
        (move_construct 0
          (bind_socket little nowhere (pos 4) (negsuc 0) (open_socket (pos 3) no_sockets)))
        (omega arith) (omega arith)))

moved_from :
    (fd_at (move_construct 0 (open_socket (pos 3) no_sockets)).sockets 0
      ≡ fd_at (open_socket (pos 3) no_sockets).sockets 0)
    × (receive 1 recv_failed (move_construct 0 (open_socket (pos 3) no_sockets))
        ≡ (move_construct 0 (open_socket (pos 3) no_sockets), unexpected error))
unfolding open_socket
moved_from = receive-move_construct 0 recv_failed (open_socket (pos 3) no_sockets) (omega arith)
