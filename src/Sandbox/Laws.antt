-- ===== src/Sandbox/Laws.antt =====
-- The buffer of a message, and which descriptors a run opens and closes.
use dirty_net.Prelude.{
  ℕ, ◌<◌, ◌≡◌, refl, sym, ap, ◌∙◌, List, [], ◌∷◌, ◌++◌, append_assoc, append-nil, arith, done,
  fault, length, drop, length-append, length-drop, take-length_append,
}
use dirty_net.Prelude.Int.{ℤ}
use dirty_net.Text.{c_str}
use dirty_net.Memory.{write_at}
use dirty_net.Memory.Laws.{write_at-done}
use dirty_net.Stream.{failed, got}
use dirty_net.Sandbox.{System, Call, opens, closes, terminated}

-- A NUL behind a text ends it.
pub c_str_nul : (s more : List ℕ) → c_str (s ++ (0 ∷ more)) ≡ c_str s
unfolding c_str
c_str_nul [] more = refl
c_str_nul (b ∷ bs) more = ground (arith, c_str_nul bs more)

pub terminated_failed : (buffer : List ℕ) → terminated buffer failed ≡ fault
unfolding terminated
terminated_failed buffer = refl

-- A message that leaves a byte free is found up to its first NUL.
pub terminated-got :
    (buffer bytes : List ℕ)
    → length bytes < length buffer
    → terminated buffer (got bytes) ≡ done (c_str bytes)
unfolding terminated
terminated-got buffer bytes h =
    let rest : List ℕ = drop (length bytes) buffer in
    rw
      (write_at-done (bytes ++ rest) (length bytes) (0 ∷ [])
        (omega (arith, length-append bytes rest, length-drop (length bytes) buffer)))
      (rw (take-length_append bytes rest) (ap done (c_str_nul bytes _)))

-- One that fills the buffer does not leave room for the NUL.
pub terminated_full :
    (buffer bytes : List ℕ) → length bytes ≡ length buffer → terminated buffer (got bytes) ≡ fault
unfolding terminated write_at
terminated_full buffer bytes h =
    let rest : List ℕ = drop (length bytes) buffer in
    ground (arith, length-append bytes rest, length-drop (length bytes) buffer)

-- The results of the socket calls of a run that has made the calls `before`.
socket_of : System → List Call → Call → List ℤ
socket_of sys before opens = sys.result before opens ∷ []
socket_of sys before _ = []

unfoldable pub opened : System → List Call → List Call → List ℤ
unfolding socket_of
opened sys before [] = []
opened sys before (c ∷ cs) = socket_of sys before c ++ opened sys (before ++ (c ∷ [])) cs

-- The descriptors that it closes.
closed_by : Call → List ℤ
closed_by (closes fd) = fd ∷ []
closed_by _ = []

unfoldable pub closed : List Call → List ℤ
unfolding closed_by
closed [] = []
closed (c ∷ cs) = closed_by c ++ closed cs

pub opened-append :
    (sys : System) (before xs ys : List Call)
    → opened sys before (xs ++ ys) ≡ opened sys before xs ++ opened sys (before ++ xs) ys
unfolding opened
opened-append sys before [] ys = ap (λ b. opened sys b ys) (sym (append-nil before))
opened-append sys before (x ∷ xs) ys =
    ap (λ t. socket_of sys before x ++ t)
      (opened-append sys (before ++ (x ∷ [])) xs ys
        ∙ ap (λ b. opened sys (before ++ (x ∷ [])) xs ++ opened sys b ys)
            (append_assoc before (x ∷ []) xs))
    ∙ sym (append_assoc (socket_of sys before x) _ _)

pub closed-append : (xs ys : List Call) → closed (xs ++ ys) ≡ closed xs ++ closed ys
unfolding closed
closed-append [] ys = refl
closed-append (x ∷ xs) ys =
    ap (λ t. closed_by x ++ t) (closed-append xs ys)
    ∙ sym (append_assoc (closed_by x) (closed xs) (closed ys))
