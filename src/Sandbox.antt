-- ===== src/Sandbox.antt =====
-- What the small programs of sandbox share: a run over the calls made to the system, and the buffer that
-- a message is read into.
pub mod Laws
pub mod Receive
use dirty_net.Prelude.{
  ℕ, List, [], ◌∷◌, ◌++◌, Bool, true, false, if◌then◌else◌, Run, done, fault, stuck, length, drop,
}
use dirty_net.Prelude
use dirty_net.Prelude.Int.{ℤ, negsuc, is_negative}
use dirty_net.Text.{c_str}
use dirty_net.Memory.{write_at}
use dirty_net.Stream.{ReadResult, failed, got}

-- The address of an IPv4 sockaddr: sin_port and sin_addr.s_addr, in network order.
pub record Address : Type 0 where
  pub sin_port : ℕ
  pub sin_addr : ℕ

-- The calls, and what is printed of a message received.
pub data Call : Type 0 where
  opens : Call
  sets_option : ℤ → ℕ → Call
  binds connects : ℤ → Address → Call
  listens accepts : ℤ → Call
  receives : ℤ → ℕ → Call
  sends : ℤ → List ℕ → Address → Call
  writes : ℤ → List ℕ → Call
  closes : ℤ → Call
  prints : List ℕ → Call

-- The system: what a call returns behind the calls made before, the bytes that a receive or a read puts into
-- the buffer, and the address of their sender.
pub record System : Type 0 where
  pub result : List Call → Call → ℤ
  pub input : List Call → ReadResult
  pub sender : List Call → Address

-- A part of a program goes on with a value, or ends it, or runs into undefined behaviour.
pub data Step (A : Type 0) : Type 0 where
  next : A → List Call → Step A
  exits : ℤ → List Call → Step A
  undefined : Step A

abbrev pub M : Type 0 → Type 0
M A = List Call → Step A

abbrev pub and_then : {A B : Type 0} → Step A → (A → M B) → Step B
and_then (next a cs) k = k a cs
and_then (exits c cs) k = exits c cs
and_then undefined k = undefined

infixl 5 ◌>>=◌ ◌>>◌
abbrev pub ◌>>=◌ : {A B : Type 0} → M A → (A → M B) → M B
◌>>=◌ m k cs = and_then (m cs) k

abbrev pub ◌>>◌ : {B : Type 0} → M (Unit {0}) → M B → M B
m >> k = m >>= λ _. k

abbrev pub pure : {A : Type 0} → A → M A
pure a cs = next a cs

abbrev pub exit : {A : Type 0} → ℤ → M A
exit c cs = exits c cs

-- A call, and its result
abbrev pub ask : System → Call → M ℤ
ask sys c cs = next (sys.result cs c) (cs ++ (c ∷ []))

-- A call whose result is not looked at
abbrev pub call : Call → M (Unit {0})
call c cs = next tt (cs ++ (c ∷ []))

-- `if(result < 0) { return result; }`
abbrev pub unless_negative : ℤ → M (Unit {0})
unless_negative r = if is_negative r then exit r else pure tt

-- `buffer[n] = '\0'; std::string(buffer)`, where n is the result of the call that filled the buffer. A call that
-- fails leaves -1.
unfoldable pub terminated : List ℕ → ReadResult → Run (List ℕ)
terminated buffer failed = fault
terminated buffer (got bytes) =
    Prelude.◌>>=◌ (write_at (bytes ++ drop (length bytes) buffer) (length bytes) (0 ∷ []))
      λ block. done (c_str block)

abbrev pub lift : {A : Type 0} → Run A → M A
lift (done a) cs = next a cs
lift fault cs = undefined
lift stuck cs = undefined

-- A receive of `size` bytes at most into a buffer, and the text found in the buffer.
abbrev pub receive_text : System → ℤ → List ℕ → ℕ → M (List ℕ)
receive_text sys fd buffer size cs =
    lift (terminated buffer (sys.input cs)) (cs ++ (receives fd size ∷ []))
