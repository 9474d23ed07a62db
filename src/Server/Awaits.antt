-- ===== src/Server/Awaits.antt =====
-- The waiting parts of the server's session.
use dirty_net.Prelude.{ℕ, ◌≡◌, refl, ◌∙◌, List, [], ◌∷◌, ◌++◌, map, append-nil}
use dirty_net.Packet.Shape.{Message, ping, greeting, Fits, packet_of, wire}
use dirty_net.Stream.{ReadResult, got}
use dirty_net.Session.{Host, Event, next}
use dirty_net.Session.Batch.{session, Arrived, receive-Arrived}
use dirty_net.Session.Stalled.{Stalls, receive_end, collect_all-Stalls}
use dirty_net.Session.Awaits.{Arrives, Awaits, Stalls-and_then, not_none, collect_all-Stalls_empty}
use dirty_net.Server.{expect_ping, expect_greeting, await_one}
use dirty_net.Server.Polite.{Brings, expect_ping-Brings, expect_greeting-Brings}

Brings-Arrives :
    (m : Message) (c : List ℕ) (cs : List (List ℕ))
    → Fits m
    → Arrives (m ∷ []) (c ∷ cs)
    → Brings m c cs
Brings-Arrives m c cs f a = record {
  fit = f;
  first_chunk = a.chunks.0;
  chunks = a.chunks.1;
  bytes_are = a.bytes_are ∙ append-nil (wire m);
}

await_one-Stalls :
    (h : Host) (m : Message) (c : List ℕ) (cs : List (List ℕ)) (rest : List ℕ) (es : List Event)
    → Fits m
    → Arrives (m ∷ []) (c ∷ (cs ++ (rest ∷ [])))
    → (a : Arrived h c (cs ++ (rest ∷ [])) (m ∷ []) [] (map got cs) es)
    → Stalls (await_one h (map packet_of a.whole) (session (map got cs) a.piece es)) es
unfolding await_one
await_one-Stalls h m c cs rest es f b a =
    Stalls-and_then _ _ es (collect_all-Stalls h c cs rest (m ∷ []) es b.chunks (f, tt) a)

arrived_so_far :
    (h : Host) (m : Message) (c : List ℕ) (cs : List (List ℕ)) (rest : List ℕ) (es : List Event)
    → Fits m
    → Arrives (m ∷ []) (c ∷ (cs ++ (rest ∷ [])))
    → Arrived h c (cs ++ (rest ∷ [])) (m ∷ []) [] (map got cs) es
arrived_so_far h m c cs rest es f a =
    receive-Arrived h c (cs ++ (rest ∷ [])) (m ∷ []) [] (map got cs) es a.chunks.0 (f, tt)
      a.bytes_are

expect_ping-Stalls :
    (h : Host) (cs : List (List ℕ)) (rest : List ℕ) (es : List Event)
    → Arrives (ping ∷ []) (cs ++ (rest ∷ []))
    → Stalls (expect_ping h (session (map got cs) [] es)) es
unfolding expect_ping
expect_ping-Stalls h [] rest es a = ([], rw (receive_end h [] es) refl)
expect_ping-Stalls h (c ∷ cs) rest es a =
    let t = arrived_so_far h ping c cs rest es tt a in
    rw t.call (Stalls-and_then _ _ es (await_one-Stalls h ping c cs rest es tt a t))

expect_greeting-Stalls :
    (h : Host) (msg : List ℕ) (cs : List (List ℕ)) (rest : List ℕ) (es : List Event)
    → Fits (greeting msg)
    → Arrives (greeting msg ∷ []) (cs ++ (rest ∷ []))
    → Stalls (expect_greeting h (session (map got cs) [] es)) es
unfolding expect_greeting await_one
expect_greeting-Stalls h msg [] rest es f a = rw (receive_end h [] es) (
    Stalls-and_then _ _ es
      (Stalls-and_then _ _ es (collect_all-Stalls_empty h rest (greeting msg ∷ []) es (f, tt) a)))
expect_greeting-Stalls h msg (c ∷ cs) rest es f a =
    let t = arrived_so_far h (greeting msg) c cs rest es f a in
    rw t.call (Stalls-and_then _ _ es (await_one-Stalls h (greeting msg) c cs rest es f a t))

pub expect_ping-Awaits : (h : Host) → Awaits (expect_ping h) (ping ∷ []) tt
expect_ping-Awaits h = record {
  stalls = λ cs rest es a. expect_ping-Stalls h cs rest es a;
  goes_on = go_on;
}
  where
    go_on :
        (cs : List (List ℕ)) (later : List ReadResult) (es : List Event)
        → Arrives (ping ∷ []) cs
        → expect_ping h (session (map got cs ++ later) [] es) ≡ next tt (session later [] es)
    go_on [] later es a = not_none ping [] a
    go_on (c ∷ cs) later es a = expect_ping-Brings h c cs later es (Brings-Arrives ping c cs tt a)

pub expect_greeting-Awaits :
    (h : Host) (msg : List ℕ)
    → Fits (greeting msg)
    → Awaits (expect_greeting h) (greeting msg ∷ []) msg
expect_greeting-Awaits h msg f = record {
  stalls = λ cs rest es a. expect_greeting-Stalls h msg cs rest es f a;
  goes_on = go_on;
}
  where
    go_on :
        (cs : List (List ℕ)) (later : List ReadResult) (es : List Event)
        → Arrives (greeting msg ∷ []) cs
        → expect_greeting h (session (map got cs ++ later) [] es) ≡ next msg (session later [] es)
    go_on [] later es a = not_none (greeting msg) [] a
    go_on (c ∷ cs) later es a =
        expect_greeting-Brings h msg c cs later es (Brings-Arrives (greeting msg) c cs f a)
