-- ===== src/Legacy/SocketFd.antt =====
-- archive/legacy-dirtynet/core/socketfd.hh: an object that owns a descriptor. -1 stands for none.
pub mod Laws
mod Tests
use dirty_net.Prelude.{ℕ, zero, suc, Bool, true, false, List, [], ◌∷◌, set, ◌==◌, if◌then◌else◌}
use dirty_net.Prelude.Int.{ℤ, pos, negsuc}
use dirty_net.Posix.UdpSocket.{fd_at, erase}

-- The objects by their `_fd`, the descriptors given to constructors, and those closed.
pub record Sockets : Type 0 where
  pub fds : List ℤ
  pub adopted : List ℤ
  pub closes : List ℤ

-- _fd != -1, as operator bool
abbrev pub is_open : ℤ → Bool
is_open (pos n) = true
is_open (negsuc zero) = false
is_open (negsuc (suc n)) = true

abbrev pub close_open : ℤ → List ℤ → List ℤ
close_open fd cs = if is_open fd then fd ∷ cs else cs

-- SocketFD(int fd), and SocketFD()
unfoldable pub adopt : ℤ → Sockets → Sockets
adopt fd s = record { fds = fd ∷ s.fds; adopted = fd ∷ s.adopted; closes = s.closes }

unfoldable pub default_construct : Sockets → Sockets
default_construct s = record { fds = negsuc 0 ∷ s.fds; adopted = s.adopted; closes = s.closes }

-- reset() of the object at `i`
unfoldable pub reset : ℕ → Sockets → Sockets
reset i s = record {
  fds = set s.fds i (negsuc 0);
  adopted = s.adopted;
  closes = close_open (fd_at s.fds i) s.closes;
}

-- ~SocketFD()
unfoldable pub destroy : ℕ → Sockets → Sockets
unfolding reset
destroy i s =
    let r = reset i s in record { fds = erase r.fds i; adopted = r.adopted; closes = r.closes }

-- SocketFD(SocketFD&& other)
unfoldable pub move_construct : ℕ → Sockets → Sockets
move_construct i s = record {
  fds = fd_at s.fds i ∷ set s.fds i (negsuc 0);
  adopted = s.adopted;
  closes = s.closes;
}

-- operator=(SocketFD&& other): `this != &other` is tested first.
unfoldable pub move_assign : ℕ → ℕ → Sockets → Sockets
unfolding reset
move_assign i j s =
    let r = reset i s in
    if i == j then s else record {
      fds = set (set r.fds i (fd_at r.fds j)) j (negsuc 0);
      adopted = r.adopted;
      closes = r.closes;
    }
