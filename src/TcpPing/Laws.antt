-- ===== src/TcpPing/Laws.antt =====
-- The echo loop: it answers every read, and it ends at QUIT only.
use dirty_net.Prelude.{
  ℕ, zero, suc, ◌+◌, ◌-◌, ◌<◌, ◌≡◌, refl, sym, ap, ◌∙◌, List, [], ◌∷◌, ◌++◌, append_assoc,
  append-nil, true, not, Bool-cases, inl, inr, arith, length, replicate, length-replicate, All,
}
use dirty_net.Prelude.Int.{ℤ, pos}
use dirty_net.ByteOrder.{ByteOrder}
use dirty_net.Memory.{same_bytes}
use dirty_net.Memory.Laws.{same_bytes-eq, same_bytes_refl}
use dirty_net.Text.{c_str}
use dirty_net.Stream.{failed, got}
use dirty_net.Sandbox.{
  Call, opens, receives, writes, closes, prints, System, next, and_then, ◌>>◌, pure, call,
  receive_text,
}
use dirty_net.Sandbox.Laws.{terminated-got, terminated_failed}
use dirty_net.TcpPing.{
  response_to, quit, echo, Rounds, after_round, left_loop, crashed, undefined_behaviour, rounds,
  accept_client, ended, running, behind_loop, serve_from, server_main,
}

-- The calls of one round that reads `c`, and of a round for each of several reads.
abbrev pub round_calls : ℤ → List ℕ → List Call
round_calls fd c = receives fd 1023 ∷ prints (c_str c) ∷ writes fd (response_to (c_str c)) ∷ []

unfoldable pub transcript : ℤ → List (List ℕ) → List Call
transcript fd [] = []
transcript fd (c ∷ cs) = round_calls fd c ++ transcript fd cs

-- The reads from now on give these blocks, each small enough for the buffer.
abbrev pub Feeds : System → ℤ → List Call → List (List ℕ) → Type 0
Feeds sys fd t [] = Unit {0}
Feeds sys fd t (c ∷ cs) =
    (sys.input t ≡ got c) × (length c < 1024) × Feeds sys fd (t ++ round_calls fd c) cs

abbrev pub IsQuit : List ℕ → Type 0
IsQuit c = c_str c ≡ quit

pub receive_text_done :
    (sys : System) (fd : ℤ) (t : List Call) (c : List ℕ)
    → sys.input t ≡ got c
    → length c < 1024
    → receive_text sys fd (replicate 1024 0) 1023 t ≡ next (c_str c) (t ++ (receives fd 1023 ∷ []))
receive_text_done sys fd t c e l =
    rw e (
      rw (terminated-got (replicate 1024 0) c (omega (arith, length-replicate {A = ℕ} 1024 0)))
        refl)

echo_done :
    (sys : System) (fd : ℤ) (t : List Call) (c : List ℕ)
    → sys.input t ≡ got c
    → length c < 1024
    → echo sys fd t ≡ next (not (same_bytes (c_str c) quit)) (t ++ round_calls fd c)
unfolding echo
echo_done sys fd t c e l =
    ap
      (λ s. and_then s (λ msg.
        (call (prints msg)
          >> (call (writes fd (response_to msg)) >> pure (not (same_bytes msg quit))))))
      (receive_text_done sys fd t c e l)
    ∙ ap (next (not (same_bytes (c_str c) quit))) (simp append_assoc)

goes_on : (c : List ℕ) → ¬ IsQuit c → not (same_bytes (c_str c) quit) ≡ true
goes_on c n = elim (Bool-cases (same_bytes (c_str c) quit)) [
  | inl e ↦ absurd (n (same_bytes-eq (c_str c) quit e))
  | inr e ↦ rw e refl
]

round_on :
    (sys : System) (fd : ℤ) (n : ℕ) (t : List Call) (c : List ℕ)
    → sys.input t ≡ got c
    → length c < 1024
    → ¬ IsQuit c
    → rounds sys fd (suc n) t ≡ rounds sys fd n (t ++ round_calls fd c)
unfolding rounds
round_on sys fd n t c e l q =
    ap (after_round (rounds sys fd n))
      (echo_done sys fd t c e l ∙ ap (λ b. next b (t ++ round_calls fd c)) (goes_on c q))

round_quit :
    (sys : System) (fd : ℤ) (n : ℕ) (t : List Call) (c : List ℕ)
    → sys.input t ≡ got c
    → length c < 1024
    → IsQuit c
    → rounds sys fd (suc n) t ≡ left_loop (t ++ round_calls fd c)
unfolding rounds
round_quit sys fd n t c e l q = ap (after_round (rounds sys fd n)) (
    echo_done sys fd t c e l
    ∙ ap (λ b. next (not b) (t ++ round_calls fd c))
        (ap (λ s. same_bytes s quit) q ∙ same_bytes_refl quit))

round_failed :
    (sys : System) (fd : ℤ) (n : ℕ) (t : List Call)
    → sys.input t ≡ failed
    → rounds sys fd (suc n) t ≡ crashed
unfolding rounds echo
round_failed sys fd n t e = rw e (rw (terminated_failed (replicate 1024 0)) refl)

-- Rounds without QUIT leave the loop running behind their calls.
pub rounds_on :
    (sys : System) (fd : ℤ) (m n : ℕ) (t : List Call) (cs : List (List ℕ))
    → m ≡ length cs + n
    → Feeds sys fd t cs
    → All (λ c. ¬ IsQuit c) cs
    → rounds sys fd m t ≡ rounds sys fd n (t ++ transcript fd cs)
unfolding transcript
rounds_on sys fd m n t [] h f a =
    ap (λ k. rounds sys fd k t) (omega (arith, h)) ∙ ap (rounds sys fd n) (sym (append-nil t))
rounds_on sys fd zero n t (c ∷ cs) h f a = absurd (omega (arith, h))
rounds_on sys fd (suc m) n t (c ∷ cs) h f a =
    round_on sys fd m t c f.0 f.1 a.0
    ∙ rounds_on sys fd m n (t ++ round_calls fd c) cs (omega (arith, h)) f.2 a.1
    ∙ ap (rounds sys fd n) (append_assoc t (round_calls fd c) (transcript fd cs))

served :
    (o : ByteOrder) (sys : System) (n : ℕ) {fd : ℤ} {t : List Call} {r : Rounds}
    → accept_client o sys [] ≡ next fd t
    → rounds sys fd n t ≡ r
    → server_main o sys n ≡ behind_loop (sys.result [] opens) r
unfolding server_main serve_from
served o sys n e f = rw (e, f) refl

-- Once a client has connected, and it sends blocks that are not QUIT and then QUIT, each in one
-- read of less than 1024 bytes, the server's main ends with 0 as soon as these reads are allowed
-- for: it has printed and answered every block, QUIT included, in order, and its last call, and
-- the only other one, closes the listening socket.
pub server_main-ended :
    (o : ByteOrder) (sys : System) (n : ℕ) (fd : ℤ) (t : List Call) (cs : List (List ℕ))
    (q : List ℕ)
    → accept_client o sys [] ≡ next fd t
    → Feeds sys fd t cs
    → All (λ c. ¬ IsQuit c) cs
    → Feeds sys fd (t ++ transcript fd cs) (q ∷ [])
    → IsQuit q
    → length cs < n
    → server_main o sys n
      ≡ ended
          (pos 0)
          (((t ++ transcript fd cs) ++ round_calls fd q) ++ (closes (sys.result [] opens) ∷ []))
unfolding behind_loop
server_main-ended o sys n fd t cs q e f a g iq l = served o sys n e (
    rounds_on sys fd n (suc (n - suc (length cs))) t cs (omega (arith, l)) f a
    ∙ round_quit sys fd (n - suc (length cs)) (t ++ transcript fd cs) q g.0 g.1 iq)

-- The first blocks of a client that never stops sending.
abbrev pub first_blocks : ℕ → (ℕ → List ℕ) → List (List ℕ)
first_blocks zero blocks = []
first_blocks (suc k) blocks = blocks 0 ∷ first_blocks k (λ i. blocks (suc i))

length-first_blocks : (k : ℕ) (blocks : ℕ → List ℕ) → length (first_blocks k blocks) ≡ k
length-first_blocks zero blocks = refl
length-first_blocks (suc k) blocks = ap suc (length-first_blocks k (λ i. blocks (suc i)))

never_quits :
    (k : ℕ) (blocks : ℕ → List ℕ)
    → ((i : ℕ) → ¬ IsQuit (blocks i))
    → All (λ c. ¬ IsQuit c) (first_blocks k blocks)
never_quits zero blocks a = tt
never_quits (suc k) blocks a = (a 0, never_quits k (λ i. blocks (suc i)) (λ i. a (suc i)))

-- Once a client has connected, and as long as no read fails and none gives QUIT, whatever blocks of
-- less than 1024 bytes the reads give, empty ones included, as all are once the client is gone, the
-- server's main never ends: after every number of rounds it is still in its loop, and has printed
-- and answered each of the blocks read so far, in order.
pub server_main-running :
    (o : ByteOrder) (sys : System) (k : ℕ) (fd : ℤ) (t : List Call) (blocks : ℕ → List ℕ)
    → accept_client o sys [] ≡ next fd t
    → ((k : ℕ) → Feeds sys fd t (first_blocks k blocks))
    → ((i : ℕ) → ¬ IsQuit (blocks i))
    → server_main o sys k ≡ running (t ++ transcript fd (first_blocks k blocks))
unfolding behind_loop rounds
server_main-running o sys k fd t blocks e f a = served o sys k e (
    rounds_on sys fd k zero t (first_blocks k blocks) (omega (arith, length-first_blocks k blocks))
      (f k) (never_quits k blocks a))

-- Once a client has connected, if the reads give blocks of less than 1024 bytes that are not QUIT,
-- any number of them or none, and the next read fails, the server writes outside its buffer, as soon
-- as that many rounds are allowed for.
pub server_main-undefined :
    (o : ByteOrder) (sys : System) (n : ℕ) (fd : ℤ) (t : List Call) (cs : List (List ℕ))
    → accept_client o sys [] ≡ next fd t
    → Feeds sys fd t cs
    → All (λ c. ¬ IsQuit c) cs
    → sys.input (t ++ transcript fd cs) ≡ failed
    → length cs < n
    → server_main o sys n ≡ undefined_behaviour
unfolding behind_loop
server_main-undefined o sys n fd t cs e f a g l = served o sys n e (
    rounds_on sys fd n (suc (n - suc (length cs))) t cs (omega (arith, l)) f a
    ∙ round_failed sys fd (n - suc (length cs)) (t ++ transcript fd cs) g)
