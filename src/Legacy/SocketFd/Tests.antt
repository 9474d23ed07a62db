-- ===== src/Legacy/SocketFd/Tests.antt =====
-- A descriptor that is moved, assigned to its own object and closed.
use dirty_net.Prelude.{◌+◌, ◌≡◌, refl, [], ◌∷◌, arith}
use dirty_net.Prelude.Int.{pos, negsuc}
use dirty_net.Posix.UdpSocket.{fd_at}
use dirty_net.Posix.UdpSocket.Ownership.{held}
use dirty_net.Legacy.SocketFd.{Sockets, adopt, move_assign, move_construct, destroy}
use dirty_net.Legacy.SocketFd.Laws.{
  no_objects, start, then_step, adopts, constructs, assigns, destroys, Steps-Kept,
}

abbrev moved : Sockets
moved = move_assign 0 0 (move_construct 0 (adopt (pos 3) no_objects))

moved_once : moved.fds ≡ pos 3 ∷ negsuc 0 ∷ []
unfolding move_assign move_construct adopt fd_at
moved_once = refl

Steps-Kept_example :
    held 3 (destroy 0 moved).adopted
    ≡ held 3 (destroy 0 moved).closes + held 3 (destroy 0 moved).fds
unfolding move_assign move_construct adopt destroy fd_at
Steps-Kept_example =
    Steps-Kept
      (then_step
        (then_step
          (then_step (then_step start (adopts (pos 3) no_objects))
            (constructs 0 (adopt (pos 3) no_objects) (omega arith)))
          (assigns 0 0 (move_construct 0 (adopt (pos 3) no_objects)) (omega arith) (omega arith)))
        (destroys 0 moved (omega arith)))
      3
