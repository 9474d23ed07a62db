-- ===== src/Sandbox/Receive.antt =====
-- A message received into a buffer of 1024 bytes, all of which recvfrom may fill.
use dirty_net.Prelude.{
  ℕ, ◌≤◌, ◌<◌, ◌≡◌, ◌⊎◌, inl, inr, refl, List, [], ◌∷◌, ◌++◌, false, arith, length,
}
use native.Mathlib.Decide.{dec_lt}
use dirty_net.Prelude.Int.{ℤ, is_negative}
use dirty_net.Text.{c_str}
use dirty_net.Stream.{ReadResult, failed, got}
use dirty_net.Sandbox.{Call, receives, System, Step, next, undefined, receive_text}
use dirty_net.Sandbox.Laws.{terminated_failed, terminated-got, terminated_full}

-- recvfrom gives no more bytes than it is asked for.
abbrev pub Sized : System → Type 0
Sized sys = (cs : List Call) (bytes : List ℕ) → sys.input cs ≡ got bytes → length bytes ≤ 1024

-- No call of `cs`, behind those of `before`, fails.
unfoldable pub Succeed : System → List Call → List Call → Type 0
Succeed sys before [] = Unit {0}
Succeed sys before (c ∷ cs) =
    (is_negative (sys.result before c) ≡ false) × Succeed sys (before ++ (c ∷ [])) cs

-- No byte of the buffer is left for the NUL, or the NUL goes in front of it.
abbrev pub NoRoom : ReadResult → Type 0
NoRoom r = (r ≡ failed) ⊎ ((bytes : List ℕ) × (r ≡ got bytes) × (length bytes ≡ 1024))

pub ReadResult-cases : (r : ReadResult) → (r ≡ failed) ⊎ ((bytes : List ℕ) × (r ≡ got bytes))
ReadResult-cases failed = inl refl
ReadResult-cases (got bytes) = inr (bytes, refl)

-- A receive goes on with the text up to its first NUL, or leaves the buffer.
pub data Received (cs : List Call) (fd : ℤ) (r : ReadResult) : Step (List ℕ) → Type 0 where
  no_room : NoRoom r → Received cs fd r undefined
  text_received :
      (bytes : List ℕ)
      → r ≡ got bytes
      → length bytes < 1024
      → Received cs fd r (next (c_str bytes) (cs ++ (receives fd 1024 ∷ [])))

pub receive_text-Received :
    (sys : System) (buffer : List ℕ) (fd : ℤ) (cs : List Call)
    → length buffer ≡ 1024
    → Sized sys
    → Received cs fd (sys.input cs) (receive_text sys fd buffer 1024 cs)
receive_text-Received sys buffer fd cs full sized = elim (ReadResult-cases (sys.input cs)) [
  | inl e ↦ rw e (rw (terminated_failed buffer) (no_room (inl refl)))
  | inr (bytes, e) ↦ elim (dec_lt (length bytes) 1024) [
    | yes l ↦
        rw e (rw (terminated-got buffer bytes (omega (arith, full))) (text_received bytes refl l))
    | no l ↦
        let whole : length bytes ≡ 1024 = omega (arith, sized cs bytes e) in
        rw e (
          rw (terminated_full buffer bytes (omega (arith, full, whole)))
            (no_room (inr (bytes, refl, whole))))
  ]
]
