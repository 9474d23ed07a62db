-- ===== src/Session/Brings.antt =====
-- Messages that arrive in reads of their own, and a message that is sent when no bytes are kept.
use dirty_net.Prelude.{ℕ, ◌≡◌, refl, List, [], ◌∷◌, ◌++◌, map, All}
use dirty_net.Prelude.Int.{ℤ}
use dirty_net.Packet.Shape.{Message, Fits, packet_of, wire, encode-wire}
use dirty_net.Stream.{ReadResult, got}
use dirty_net.Stream.Split.{wires}
use dirty_net.Stream.Chunks.{concat, IsChunk}
use dirty_net.Session.{Host, Event, writes, next, send, write, lift}
use dirty_net.Session.Batch.{session, Arrived, receive-Arrived}

-- The reads that bring some messages, cut in any way into non-empty pieces.
pub record BringsAll (ms : List Message) (c : List ℕ) (cs : List (List ℕ)) : Type 0 where
  pub fit : All Fits ms
  pub first_chunk : IsChunk c
  pub chunks : All IsChunk cs
  pub bytes_are : concat (c ∷ cs) ≡ wires ms

pub all_arrived :
    (h : Host) (ms : List Message) (c : List ℕ) (cs : List (List ℕ)) (later : List ReadResult)
    (es : List Event)
    → BringsAll ms c cs
    → Arrived h c cs ms [] (map got cs ++ later) es
all_arrived h ms c cs later es b =
    receive-Arrived h c cs ms [] (map got cs ++ later) es b.first_chunk b.fit b.bytes_are

-- A read, and those that follow it up to later ones.
abbrev pub script : List ℕ → List (List ℕ) → List ReadResult → List ReadResult
script c cs later = got c ∷ (map got cs ++ later)

pub send_done :
    (h : Host) (fd : ℤ) (m : Message) (rs : List ReadResult) (es : List Event)
    → Fits m
    → send h fd (packet_of m) (session rs [] es)
      ≡ next (h.write_result es (wire m)) (session rs [] (es ++ (writes fd (wire m) ∷ [])))
unfolding send lift write
send_done h fd m rs es f = rw (encode-wire h.byte_order m f) refl
