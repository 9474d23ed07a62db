-- ===== src/Session/Awaits.antt =====
-- What main does when it waits for messages: it goes on when they are whole, and returns -1 when the
-- connection gives out before.
use dirty_net.Prelude.{ℕ, ◌≡◌, ap, List, [], ◌∷◌, ◌++◌, map, arith, length, All}
use dirty_net.Packet.Shape.{Message, ping, pong, greeting, Fits, wire}
use dirty_net.ByteOrder.{store32}
use dirty_net.Stream.{ReadResult, got}
use dirty_net.Stream.Split.{wires}
use dirty_net.Stream.Chunks.{concat, IsChunk}
use dirty_net.Session.{Host, Event, M, Exit, next, and_then, collect_all}
use dirty_net.Session.Batch.{session}
use dirty_net.Session.Stalled.{Stalls, collect-Stalls}

-- `cs` are the reads that bring the messages, or, with what is still missing at the end, those so far.
pub record Arrives (ms : List Message) (cs : List (List ℕ)) : Type 0 where
  pub chunks : All IsChunk cs
  pub bytes_are : concat cs ≡ wires ms

-- A part of main that ends with the value when the messages have arrived, and stalls before.
pub record Awaits {A : Type 0} (part : M A) (ms : List Message) (value : A) : Type 0 where
  pub stalls :
      (cs : List (List ℕ)) (rest : List ℕ) (es : List Event)
      → Arrives ms (cs ++ (rest ∷ []))
      → Stalls (part (session (map got cs) [] es)) es
  pub goes_on :
      (cs : List (List ℕ)) (later : List ReadResult) (es : List Event)
      → Arrives ms cs
      → part (session (map got cs ++ later) [] es) ≡ next value (session later [] es)

pub Stalls-and_then :
    {A B : Type 0} (e : Exit A) (k : A → M B) (es : List Event)
    → Stalls e es
    → Stalls (and_then e k) es
Stalls-and_then e k es (u, p) = (u, ap (λ x. and_then x k) p)

pub wires-IsChunk : (m : Message) (ms : List Message) → IsChunk (wires (m ∷ ms))
unfolding wire store32
wires-IsChunk ping ms e = cc
wires-IsChunk pong ms e = cc
wires-IsChunk (greeting m) ms e = cc

pub not_none : {B : Type 0} (m : Message) (ms : List Message) → Arrives (m ∷ ms) [] → B
not_none m ms a = absurd (wires-IsChunk m ms (sym_nothing (a.bytes_are)))
  where
    sym_nothing : {xs : List ℕ} → [] ≡ xs → xs ≡ []
    sym_nothing e = cc

-- The loop, when the first call has given nothing.
pub collect_all-Stalls_empty :
    (h : Host) (rest : List ℕ) (ms : List Message) (es : List Event)
    → All Fits ms
    → Arrives ms (rest ∷ [])
    → Stalls (collect_all h (length ms) [] (session [] [] es)) es
unfolding collect_all
collect_all-Stalls_empty h rest ms es f a =
    collect-Stalls h [] rest 1 (length ms) [] ms [] es (omega arith) (omega arith) a.chunks f
      a.bytes_are
