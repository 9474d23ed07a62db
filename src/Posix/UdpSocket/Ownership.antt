-- ===== src/Posix/UdpSocket/Ownership.antt =====
-- Who owns which descriptor: every descriptor that is open belongs to one object, and no descriptor is
-- closed twice.
pub mod Descriptors
pub mod Laws
use dirty_net.Prelude.{
  ℕ, zero, suc, ◌+◌, ◌≤◌, ◌<◌, ◌≡◌, ◌⊎◌, inl, inr, refl, sym, ap, subst, ◌∙◌, Bool, Bool-cases,
  true, false, not, Option, List, [], ◌∷◌, arith, length, set, ◌==◌, if◌then◌else◌,
}
use dirty_net.Prelude.Int.{ℤ, pos, negsuc, is_negative}
use dirty_net.ByteOrder.{ByteOrder}
use dirty_net.Posix.Ip.{Expected}
use dirty_net.Posix.Endpoint.{Endpoint, addr_info}
use dirty_net.Posix.UdpSocket.{
  Call, socket_gave, bind_gave, closes, sendto_gave, recvfrom_gave, getsockname_gave, World, fd_at,
  erase, close_fd, move_construct, move_assign, destroy, open_socket, bind_socket, send_to,
  Recvfrom, receive, get_port, kill,
}

-- 1 if the descriptor is `n`
unfoldable pub one : ℕ → ℤ → ℕ
one n (pos m) = if m == n then 1 else 0
one n (negsuc m) = 0

-- The objects that hold `n`, and how often it was opened and closed.
unfoldable pub held : ℕ → List ℤ → ℕ
unfolding one
held n [] = 0
held n (fd ∷ fds) = one n fd + held n fds

unfoldable pub opened : ℕ → List Call → ℕ
unfolding one
opened n [] = 0
opened n (socket_gave fd ∷ calls) = one n fd + opened n calls
opened n (bind_gave _ _ _ ∷ calls) = opened n calls
opened n (closes _ ∷ calls) = opened n calls
opened n (sendto_gave _ _ _ _ ∷ calls) = opened n calls
opened n (recvfrom_gave _ _ ∷ calls) = opened n calls
opened n (getsockname_gave _ ∷ calls) = opened n calls

unfoldable pub closed : ℕ → List Call → ℕ
unfolding one
closed n [] = 0
closed n (socket_gave _ ∷ calls) = closed n calls
closed n (bind_gave _ _ _ ∷ calls) = closed n calls
closed n (closes fd ∷ calls) = one n fd + closed n calls
closed n (sendto_gave _ _ _ _ ∷ calls) = closed n calls
closed n (recvfrom_gave _ _ ∷ calls) = closed n calls
closed n (getsockname_gave _ ∷ calls) = closed n calls

-- Every close is of a descriptor that is open.
pub Balanced : List Call → Type 0
Balanced [] = Unit {0}
Balanced (socket_gave _ ∷ calls) = Balanced calls
Balanced (bind_gave _ _ _ ∷ calls) = Balanced calls
Balanced (closes (pos n) ∷ calls) = (closed n calls < opened n calls) × Balanced calls
Balanced (closes (negsuc _) ∷ calls) = ⊥
Balanced (sendto_gave _ _ _ _ ∷ calls) = Balanced calls
Balanced (recvfrom_gave _ _ ∷ calls) = Balanced calls
Balanced (getsockname_gave _ ∷ calls) = Balanced calls

pub record Owned (w : World) : Type 0 where
  pub balanced : Balanced w.calls
  pub owners : (n : ℕ) → opened n w.calls ≡ closed n w.calls + held n w.sockets
  pub single : (n : ℕ) → held n w.sockets ≤ 1

-- What POSIX says of a result of socket(): a failure, or a descriptor that is not open.
unfoldable pub Fresh : ℤ → World → Type 0
Fresh fd w = (n : ℕ) → fd ≡ pos n → opened n w.calls ≡ closed n w.calls

-- One operation on the objects of a program.
pub data Step : World → World → Type 0 where
  opens : (fd : ℤ) (w : World) → Fresh fd w → Step w (open_socket fd w)
  binds :
      (o : ByteOrder) (ep : Endpoint) (fd bound : ℤ) (w : World)
      → Fresh fd w
      → Step w (bind_socket o ep fd bound w)
  constructs : (i : ℕ) (w : World) → i < length w.sockets → Step w (move_construct i w)
  assigns :
      (i j : ℕ) (w : World)
      → i < length w.sockets
      → j < length w.sockets
      → Step w (move_assign i j w)
  destroys : (i : ℕ) (w : World) → i < length w.sockets → Step w (destroy i w)
  sends :
      (o : ByteOrder) (i : ℕ) (ep : Endpoint) (bytes : List ℕ) (n : ℤ) (w : World)
      → Step w (send_to o i ep bytes n w).0
  receives : (i : ℕ) (r : Recvfrom) (w : World) → Step w (receive i r w).0
  asks : (o : ByteOrder) (i : ℕ) (p : Option ℕ) (w : World) → Step w (get_port o i p w).0

pub data Steps : World → World → Type 0 where
  stop : (w : World) → Steps w w
  then_step : {u v w : World} → Steps u v → Step v w → Steps u w
