-- ===== src/Legacy/SocketFd/Laws.antt =====
-- No descriptor is lost or closed once too often.
use dirty_net.Prelude.{
  ℕ, zero, suc, ◌+◌, ◌<◌, ◌≡◌, refl, ap, Bool-cases, inl, inr, List, [], length, set, ◌==◌, arith,
}
use dirty_net.Prelude.Int.{ℤ, pos, negsuc}
use dirty_net.Posix.UdpSocket.{fd_at, erase}
use dirty_net.Posix.UdpSocket.Ownership.{one, held}
use dirty_net.Posix.UdpSocket.Ownership.Descriptors.{
  one_none, held-set, held-erase, length-set, fd_at-set, fd_at-set_same,
}
use dirty_net.Legacy.SocketFd.{
  Sockets, close_open, adopt, default_construct, reset, destroy, move_construct, move_assign,
}

abbrev pub no_objects : Sockets
no_objects = record { fds = []; adopted = []; closes = [] }

-- One operation on the objects of a program
pub data Step : Sockets → Sockets → Type 0 where
  adopts : (fd : ℤ) (s : Sockets) → Step s (adopt fd s)
  makes : (s : Sockets) → Step s (default_construct s)
  resets : (i : ℕ) (s : Sockets) → i < length s.fds → Step s (reset i s)
  destroys : (i : ℕ) (s : Sockets) → i < length s.fds → Step s (destroy i s)
  constructs : (i : ℕ) (s : Sockets) → i < length s.fds → Step s (move_construct i s)
  assigns :
      (i j : ℕ) (s : Sockets) → i < length s.fds → j < length s.fds → Step s (move_assign i j s)

pub data Steps : Sockets → Type 0 where
  start : Steps no_objects
  then_step : {s t : Sockets} → Steps s → Step s t → Steps t

-- Of each descriptor, as many were given to constructors as have been closed or are held.
abbrev pub Kept : Sockets → Type 0
Kept s = (n : ℕ) → held n s.adopted ≡ held n s.closes + held n s.fds

held-close_open : (n : ℕ) (fd : ℤ) (cs : List ℤ) → held n (close_open fd cs) ≡ one n fd + held n cs
unfolding held one
held-close_open n (pos m) cs = refl
held-close_open n (negsuc zero) cs = omega arith
held-close_open n (negsuc (suc m)) cs = refl

one_invalid : (n : ℕ) → one n (negsuc 0) ≡ 0
one_invalid n = one_none n (negsuc 0) refl

reset-Kept : (i : ℕ) (s : Sockets) → i < length s.fds → Kept s → Kept (reset i s)
unfolding reset
reset-Kept i s l k n = omega (
  arith,
  k n,
  held-close_open n (fd_at s.fds i) s.closes,
  held-set n s.fds i (negsuc 0) l,
  one_invalid n,
)

-- An object without a descriptor may go, and may take over another's.
empty_at-Kept :
    (i : ℕ) (s : Sockets)
    → i < length s.fds
    → fd_at s.fds i ≡ negsuc 0
    → Kept s
    → Kept (record { fds = erase s.fds i; adopted = s.adopted; closes = s.closes })
empty_at-Kept i s l e k n = omega (arith, k n, held-erase n s.fds i l, ap (one n) e, one_invalid n)

taken-Kept :
    (i j : ℕ) (s : Sockets)
    → i < length s.fds
    → j < length s.fds
    → fd_at s.fds i ≡ negsuc 0
    → Kept s
    → Kept (record {
      fds = set (set s.fds i (fd_at s.fds j)) j (negsuc 0);
      adopted = s.adopted;
      closes = s.closes;
    })
taken-Kept i j s l m e k n =
    let moved : List ℤ = set s.fds i (fd_at s.fds j) in
    omega (
      arith,
      k n,
      ap (one n) e,
      one_invalid n,
      held-set n s.fds i (fd_at s.fds j) l,
      held-set n moved j (negsuc 0) (omega (arith, m, length-set s.fds i (fd_at s.fds j))),
      ap (one n) (fd_at-set s.fds i j (fd_at s.fds j) refl),
    )

Step-Kept : {s t : Sockets} → Step s t → Kept s → Kept t
unfolding adopt default_construct destroy move_construct move_assign reset held
Step-Kept (adopts fd s) k = λ n. omega (arith, k n)
Step-Kept (makes s) k = λ n. omega (arith, k n, one_invalid n)
Step-Kept (resets i s l) k = reset-Kept i s l k
Step-Kept (destroys i s l) k =
    empty_at-Kept i (reset i s) (omega (arith, l, length-set s.fds i (negsuc 0)))
      (fd_at-set_same s.fds i (negsuc 0) l) (reset-Kept i s l k)
Step-Kept (constructs i s l) k =
    λ n. omega (arith, k n, held-set n s.fds i (negsuc 0) l, one_invalid n)
Step-Kept (assigns i j s l m) k = elim (Bool-cases (i == j)) [
  | inl e ↦ rw e k
  | inr e ↦ rw e (
      taken-Kept i j (reset i s) (omega (arith, l, length-set s.fds i (negsuc 0)))
        (omega (arith, m, length-set s.fds i (negsuc 0))) (fd_at-set_same s.fds i (negsuc 0) l)
        (reset-Kept i s l k))
]

-- After any sequence of operations on SocketFD objects, self-assignment included, every descriptor has been given to
-- constructors exactly as often as it has been closed or is held: none is lost, and none is closed more often
-- than it was given.
pub Steps-Kept :
    {s : Sockets} → Steps s → (n : ℕ) → held n s.adopted ≡ held n s.closes + held n s.fds
unfolding held
Steps-Kept start n = omega arith
Steps-Kept (then_step b a) n = Step-Kept a (Steps-Kept b) n
