-- ===== src/Posix/UdpSocket/Ownership/Laws.antt =====
-- Every operation of udp_socket keeps descriptors owned.
use dirty_net.Prelude.{
  ℕ, suc, ◌+◌, ◌<◌, ◌≡◌, inl, inr, refl, ap, Bool-cases, true, List, [], ◌∷◌, arith, length, set,
}
use dirty_net.Prelude.Int.{ℤ, pos, negsuc, is_negative}
use dirty_net.ByteOrder.{ByteOrder}
use dirty_net.Posix.Ip.{unexpected}
use dirty_net.Posix.Endpoint.{Endpoint, addr_info}
use dirty_net.Posix.UdpSocket.{
  error, socket_gave, bind_gave, World, fd_at, erase, close_fd, move_construct, move_assign,
  destroy, open_socket, bind_socket, send_to, Recvfrom, receive, get_port,
}
use dirty_net.Posix.UdpSocket.Ownership.{
  one, held, opened, closed, Balanced, Owned, Fresh, Step, opens, binds, constructs, assigns,
  destroys, sends, receives, asks, Steps, stop, then_step,
}
use dirty_net.Posix.UdpSocket.Ownership.Descriptors.{
  one_le, one_none, held-set, held-erase, length-set, opened-close_fd, closed-close_fd,
  Balanced-close_fd, one-fd_at_le, one_cases, fd_at-set, fd_at-set_same,
}

-- A socket that the system has made, and an object that holds it.
acquired-Owned :
    (fd : ℤ) (w : World)
    → Fresh fd w
    → Owned w
    → Owned (record { sockets = fd ∷ w.sockets; calls = socket_gave fd ∷ w.calls })
unfolding Fresh Balanced opened closed held
acquired-Owned fd w f o = record {
  balanced = o.balanced;
  owners = λ n. omega (arith, o.owners n);
  single = λ n. elim (one_cases n fd) [
    | inl e ↦ omega (arith, o.single n)
    | inr e ↦ omega (arith, one_le n fd, f n e, o.owners n)
  ];
}

move_construct-Owned :
    (i : ℕ) (w : World) → i < length w.sockets → Owned w → Owned (move_construct i w)
unfolding move_construct held
move_construct-Owned i w l o =
    let moved : (n : ℕ)
        → held n (set w.sockets i (negsuc 0)) + one n (fd_at w.sockets i) ≡ held n w.sockets =
      λ n. omega (arith, held-set n w.sockets i (negsuc 0) l, one_none n (negsuc 0) refl) in
    record {
      balanced = o.balanced;
      owners = λ n. omega (arith, o.owners n, moved n);
      single = λ n. omega (arith, o.single n, moved n);
    }

-- The close of the descriptor that an object holds, if no object holds it any more.
closed-Owned :
    (i : ℕ) (w : World) (fds : List ℤ)
    → i < length w.sockets
    → Owned w
    → ((n : ℕ) → held n fds + one n (fd_at w.sockets i) ≡ held n w.sockets)
    → Owned (record { sockets = fds; calls = close_fd (fd_at w.sockets i) w.calls })
closed-Owned i w fds l o left = record {
  balanced =
      Balanced-close_fd (fd_at w.sockets i) w.sockets w.calls o.balanced o.owners
        (λ n. one-fd_at_le n w.sockets i l);
  owners = λ n. omega (
    arith,
    o.owners n,
    left n,
    opened-close_fd n (fd_at w.sockets i) w.calls,
    closed-close_fd n (fd_at w.sockets i) w.calls,
  );
  single = λ n. omega (arith, o.single n, left n);
}

destroy-Owned : (i : ℕ) (w : World) → i < length w.sockets → Owned w → Owned (destroy i w)
unfolding destroy
destroy-Owned i w l o = closed-Owned i w (erase w.sockets i) l o (λ n. held-erase n w.sockets i l)

move_assign-Owned :
    (i j : ℕ) (w : World)
    → i < length w.sockets
    → j < length w.sockets
    → Owned w
    → Owned (move_assign i j w)
unfolding move_assign
move_assign-Owned i j w k l o =
    let v : ℤ = fd_at w.sockets j in
    closed-Owned i w (set (set w.sockets i v) j (negsuc 0)) k o (λ n. omega (
      arith,
      held-set n w.sockets i v k,
      held-set n (set w.sockets i v) j (negsuc 0) (omega (arith, length-set w.sockets i v)),
      ap (one n) (fd_at-set w.sockets i j v refl),
      one_none n (negsuc 0) refl,
    ))

-- A failed socket() leaves everything as it was.
failed-Owned :
    (fd : ℤ) (w : World)
    → is_negative fd ≡ true
    → Owned w
    → Owned (record { sockets = w.sockets; calls = socket_gave fd ∷ w.calls })
unfolding Balanced opened closed
failed-Owned fd w e o = record {
  balanced = o.balanced;
  owners = λ n. omega (arith, one_none n fd e, o.owners n);
  single = o.single;
}

open_socket-Owned : (fd : ℤ) (w : World) → Fresh fd w → Owned w → Owned (open_socket fd w)
unfolding open_socket
open_socket-Owned (negsuc m) w f o = failed-Owned (negsuc m) w refl o
open_socket-Owned (pos m) w f o =
    destroy-Owned 1 _ (omega arith)
      (move_construct-Owned 0 _ (omega arith) (acquired-Owned (pos m) w f o))

-- A call that neither opens nor closes.
bound-Owned :
    (o : ByteOrder) (ep : Endpoint) (fd bound : ℤ) (w : World)
    → Owned w
    → Owned (record { sockets = w.sockets; calls = bind_gave fd (addr_info o ep) bound ∷ w.calls })
unfolding Balanced opened closed
bound-Owned o ep fd bound w p = record {
  balanced = p.balanced;
  owners = p.owners;
  single = p.single;
}

bind_socket-Owned :
    (o : ByteOrder) (ep : Endpoint) (fd bound : ℤ) (w : World)
    → Fresh fd w
    → Owned w
    → Owned (bind_socket o ep fd bound w)
unfolding bind_socket
bind_socket-Owned o ep (negsuc m) bound w f p = failed-Owned (negsuc m) w refl p
bind_socket-Owned o ep (pos m) (negsuc k) w f p =
    destroy-Owned 0 _ (omega arith)
      (bound-Owned o ep (pos m) (negsuc k) _ (acquired-Owned (pos m) w f p))
bind_socket-Owned o ep (pos m) (pos k) w f p = destroy-Owned 1 _ (omega arith) (
    move_construct-Owned 0 _ (omega arith)
      (bound-Owned o ep (pos m) (pos k) _ (acquired-Owned (pos m) w f p)))

receive-Owned : (i : ℕ) (r : Recvfrom) (w : World) → Owned w → Owned (receive i r w).0
unfolding receive Balanced opened closed
receive-Owned i r w o = elim (Bool-cases (is_negative (fd_at w.sockets i))) [
  | inl e ↦ rw e o
  | inr e ↦ rw e (record { balanced = o.balanced; owners = o.owners; single = o.single })
]

-- Every operation keeps descriptors owned.
Step-Owned : {v w : World} → Step v w → Owned v → Owned w
unfolding send_to get_port Balanced opened closed
Step-Owned (opens fd w f) o = open_socket-Owned fd w f o
Step-Owned (binds b ep fd bound w f) o = bind_socket-Owned b ep fd bound w f o
Step-Owned (constructs i w l) o = move_construct-Owned i w l o
Step-Owned (assigns i j w k l) o = move_assign-Owned i j w k l o
Step-Owned (destroys i w l) o = destroy-Owned i w l o
Step-Owned (sends b i ep bytes n w) o = record {
  balanced = o.balanced;
  owners = o.owners;
  single = o.single;
}
Step-Owned (receives i r w) o = receive-Owned i r w o
Step-Owned (asks b i p w) o = record { balanced = o.balanced; owners = o.owners; single = o.single }

abbrev pub no_sockets : World
no_sockets = record { sockets = []; calls = [] }

no_sockets-Owned : Owned no_sockets
unfolding Balanced opened closed held
no_sockets-Owned = record { balanced = tt; owners = λ n. refl; single = λ n. omega arith }

-- Whatever a program does with its sockets (open, bind, move, assign, also to itself, destroy, send,
-- receive, get_port), if socket() never gives a descriptor that is open: every close is of an open
-- descriptor, a descriptor is open exactly as often as an object holds it, and that is at most once.
pub Steps-Owned : {w : World} → Steps no_sockets w → Owned w
Steps-Owned steps = from steps no_sockets-Owned
  where
    from : {v w : World} → Steps v w → Owned v → Owned w
    from (stop w) o = o
    from (then_step ss s) o = Step-Owned s (from ss o)

-- A move construction gives the descriptor to the new object; receive on the object moved from fails
-- and makes no call.
pub receive-move_construct :
    (i : ℕ) (r : Recvfrom) (w : World)
    → i < length w.sockets
    → (fd_at (move_construct i w).sockets 0 ≡ fd_at w.sockets i)
      × (receive (suc i) r (move_construct i w) ≡ (move_construct i w, unexpected error))
unfolding receive move_construct fd_at
receive-move_construct i r w l = (refl, rw (fd_at-set_same w.sockets i (negsuc 0) l) refl)
