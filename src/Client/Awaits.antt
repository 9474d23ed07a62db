-- ===== src/Client/Awaits.antt =====
-- The waiting parts of the client's session.
use dirty_net.Prelude.{ℕ, ◌≡◌, refl, List, [], ◌∷◌, ◌++◌, map, length, All}
use dirty_net.Packet.Shape.{Message, Fits, packet_of}
use dirty_net.Stream.{ReadResult, got}
use dirty_net.Session.{Host, Event, next}
use dirty_net.Session.Batch.{session, Arrived, receive-Arrived}
use dirty_net.Session.Stalled.{Stalls, receive_end, collect_all-Stalls}
use dirty_net.Session.Awaits.{Arrives, Awaits, not_none}
use dirty_net.Client.{await_packets}
use dirty_net.Client.Polite.{await_packets-BringsAll}

await_packets-Stalls :
    (h : Host) (ms : List Message) (cs : List (List ℕ)) (rest : List ℕ) (es : List Event)
    → All Fits ms
    → Arrives ms (cs ++ (rest ∷ []))
    → Stalls (await_packets h (length ms) (session (map got cs) [] es)) es
unfolding await_packets
await_packets-Stalls h ms [] rest es f a = ([], rw (receive_end h [] es) refl)
await_packets-Stalls h ms (c ∷ cs) rest es f a =
    let t : Arrived h c (cs ++ (rest ∷ [])) ms [] (map got cs) es =
      receive-Arrived h c (cs ++ (rest ∷ [])) ms [] (map got cs) es a.chunks.0 f a.bytes_are in
    rw t.call (collect_all-Stalls h c cs rest ms es a.chunks f t)

pub await_packets-Awaits :
    (h : Host) (m : Message) (ms : List Message)
    → All Fits (m ∷ ms)
    → Awaits (await_packets h (length (m ∷ ms))) (m ∷ ms) (map packet_of (m ∷ ms))
await_packets-Awaits h m ms f = record {
  stalls = λ cs rest es a. await_packets-Stalls h (m ∷ ms) cs rest es f a;
  goes_on = go_on;
}
  where
    go_on :
        (cs : List (List ℕ)) (later : List ReadResult) (es : List Event)
        → Arrives (m ∷ ms) cs
        → await_packets h (length (m ∷ ms)) (session (map got cs ++ later) [] es)
          ≡ next (map packet_of (m ∷ ms)) (session later [] es)
    go_on [] later es a = not_none m ms a
    go_on (c ∷ cs) later es a =
        await_packets-BringsAll h (m ∷ ms) c cs later es (record {
          fit = f;
          first_chunk = a.chunks.0;
          chunks = a.chunks.1;
          bytes_are = a.bytes_are;
        })
