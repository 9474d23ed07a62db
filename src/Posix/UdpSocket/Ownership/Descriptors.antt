-- ===== src/Posix/UdpSocket/Ownership/Descriptors.antt =====
-- The descriptors that a world's objects hold, and those that its calls have closed.
use dirty_net.Prelude.{
  ℕ, zero, suc, ◌+◌, ◌≤◌, ◌<◌, ◌≡◌, ◌⊎◌, inl, refl, sym, ap, true, List, [], ◌∷◌, arith, length,
  set,
}
use dirty_net.Prelude.Int.{ℤ, pos, negsuc, is_negative}
use dirty_net.Posix.UdpSocket.{Call, fd_at, erase, close_fd}
use dirty_net.Posix.UdpSocket.Ownership.{one, held, opened, closed, Balanced}

pub one_le : (n : ℕ) (fd : ℤ) → one n fd ≤ 1
unfolding one
one_le n (pos m) = ground arith
one_le n (negsuc m) = ground arith

one_self : (n : ℕ) → one n (pos n) ≡ 1
unfolding one
one_self n = ground arith

pub one_none : (n : ℕ) (fd : ℤ) → is_negative fd ≡ true → one n fd ≡ 0
unfolding one
one_none n (pos m) e = cc
one_none n (negsuc m) e = refl

pub held-set :
    (n : ℕ) (fds : List ℤ) (i : ℕ) (fd : ℤ)
    → i < length fds
    → held n (set fds i fd) + one n (fd_at fds i) ≡ held n fds + one n fd
unfolding held fd_at
held-set n [] i fd l = absurd (omega arith)
held-set n (x ∷ xs) zero fd l = omega arith
held-set n (x ∷ xs) (suc i) fd l = omega (arith, held-set n xs i fd (omega arith))

pub held-erase :
    (n : ℕ) (fds : List ℤ) (i : ℕ)
    → i < length fds
    → held n (erase fds i) + one n (fd_at fds i) ≡ held n fds
unfolding held fd_at erase
held-erase n [] i l = absurd (omega arith)
held-erase n (x ∷ xs) zero l = omega arith
held-erase n (x ∷ xs) (suc i) l = omega (arith, held-erase n xs i (omega arith))

pub length-set : (fds : List ℤ) (i : ℕ) (fd : ℤ) → length (set fds i fd) ≡ length fds
length-set [] i fd = refl
length-set (x ∷ xs) zero fd = refl
length-set (x ∷ xs) (suc i) fd = ap suc (length-set xs i fd)

pub opened-close_fd :
    (n : ℕ) (fd : ℤ) (calls : List Call) → opened n (close_fd fd calls) ≡ opened n calls
unfolding opened close_fd
opened-close_fd n (pos m) calls = refl
opened-close_fd n (negsuc m) calls = refl

pub closed-close_fd :
    (n : ℕ) (fd : ℤ) (calls : List Call) → closed n (close_fd fd calls) ≡ one n fd + closed n calls
unfolding closed close_fd one
closed-close_fd n (pos m) calls = omega arith
closed-close_fd n (negsuc m) calls = omega arith

-- A descriptor that an object holds may be closed.
pub Balanced-close_fd :
    (fd : ℤ) (fds : List ℤ) (calls : List Call)
    → Balanced calls
    → ((n : ℕ) → opened n calls ≡ closed n calls + held n fds)
    → ((n : ℕ) → one n fd ≤ held n fds)
    → Balanced (close_fd fd calls)
unfolding Balanced close_fd
Balanced-close_fd (pos m) fds calls b o h = (omega (arith, o m, h m, one_self m), b)
Balanced-close_fd (negsuc m) fds calls b o h = b

pub one-fd_at_le :
    (n : ℕ) (fds : List ℤ) (i : ℕ) → i < length fds → one n (fd_at fds i) ≤ held n fds
one-fd_at_le n fds i l = omega (arith, held-erase n fds i l)

pub one_cases : (n : ℕ) (fd : ℤ) → (one n fd ≡ 0) ⊎ (fd ≡ pos n)
unfolding one
one_cases n (pos m) = ground arith
one_cases n (negsuc m) = inl refl

-- An object that takes over `v` from index `j` still finds it there.
pub fd_at-set : (fds : List ℤ) (i j : ℕ) (v : ℤ) → v ≡ fd_at fds j → fd_at (set fds i v) j ≡ v
unfolding fd_at
fd_at-set [] i j v e = sym e
fd_at-set (x ∷ xs) zero zero v e = refl
fd_at-set (x ∷ xs) zero (suc j) v e = sym e
fd_at-set (x ∷ xs) (suc i) zero v e = sym e
fd_at-set (x ∷ xs) (suc i) (suc j) v e = fd_at-set xs i j v e

pub fd_at-set_same : (fds : List ℤ) (i : ℕ) (v : ℤ) → i < length fds → fd_at (set fds i v) i ≡ v
unfolding fd_at
fd_at-set_same [] i v l = absurd (omega arith)
fd_at-set_same (x ∷ xs) zero v l = refl
fd_at-set_same (x ∷ xs) (suc i) v l = fd_at-set_same xs i v (omega arith)
