-- ===== src/Client/Polite.antt =====
-- The client and a peer that follows the protocol: the session comes to its good end.
use dirty_net.Prelude.{ℕ, ◌≡◌, refl, List, [], ◌∷◌, ◌++◌, map, length}
use dirty_net.Prelude.Int.{ℤ, pos}
use dirty_net.Packet.{packet_of_type, packet_of_msg, create_ping, create_msg}
use dirty_net.Packet.Shape.{Message, ping, pong, greeting, packet_of, wire}
use dirty_net.Stream.{ReadResult}
use dirty_net.Session.{Host, Event, writes, closes, next, returns, close}
use dirty_net.Session.Batch.{session, collect_all-Arrived}
use dirty_net.Session.Brings.{BringsAll, all_arrived, script, send_done}
use dirty_net.Client.{
  await_packets, all_pongs, packet_at, hello_from_client, built_msg, quit, play, main,
}
use dirty_net.Client.Transcript.{Fits-built_msg, Fits-hello_from_client, Fits-quit}

pub await_packets-BringsAll :
    (h : Host) (ms : List Message) (c : List ℕ) (cs : List (List ℕ)) (later : List ReadResult)
    (es : List Event)
    → BringsAll ms c cs
    → await_packets h (length ms) (session (script c cs later) [] es)
      ≡ next (map packet_of ms) (session later [] es)
unfolding await_packets
await_packets-BringsAll h ms c cs later es b =
    rw ((all_arrived h ms c cs later es b).call)
      (collect_all-Arrived h c cs ms [] later es b.chunks b.fit (all_arrived h ms c cs later es b))

-- The calls of a run that comes to its good end.
abbrev pub client_run : ℤ → List Event
client_run fd =
    writes fd (wire ping)
    ∷ writes fd (wire (greeting hello_from_client))
    ∷ writes fd (wire (greeting built_msg))
    ∷ writes fd (wire (greeting quit))
    ∷ closes fd
    ∷ []

-- If the connection is made and the peer sends a pong, then three messages and then three more, each of these
-- parts in reads of its own, cut in any way into non-empty pieces, then the client's main returns 0, has written
-- its four messages and closed its descriptor, in this order, has kept no bytes and left the later reads untouched.
pub main-client_run :
    (h : Host) (socket : ℕ) (m₁ m₂ m₃ n₁ n₂ n₃ : Message) (a b c : List ℕ)
    (a_rest b_rest c_rest : List (List ℕ)) (later : List ReadResult)
    → BringsAll (pong ∷ []) a a_rest
    → BringsAll (m₁ ∷ m₂ ∷ m₃ ∷ []) b b_rest
    → BringsAll (n₁ ∷ n₂ ∷ n₃ ∷ []) c c_rest
    → main h
        (record { socket_result = pos socket; connect_result = pos 0 })
        (session (script a a_rest (script b b_rest (script c c_rest later))) [] [])
      ≡ returns (pos 0) (session later [] (client_run (pos socket)))
unfolding main play create_ping create_msg packet_of packet_of_type packet_of_msg close all_pongs
    packet_at
main-client_run h socket m₁ m₂ m₃ n₁ n₂ n₃ a b c a_rest b_rest c_rest later ka kb kc =
    let k : ℤ = pos socket in
    let later_c : List ReadResult = script c c_rest later in
    let later_b : List ReadResult = script b b_rest later_c in
    let later_a : List ReadResult = script a a_rest later_b in
    let p₁ : List Event = writes k (wire ping) ∷ [] in
    let p₂ : List Event = p₁ ++ (writes k (wire (greeting hello_from_client)) ∷ []) in
    let p₃ : List Event = p₂ ++ (writes k (wire (greeting built_msg)) ∷ []) in
    rw (send_done h k ping later_a [] tt) (
      rw (await_packets-BringsAll h (pong ∷ []) a a_rest later_b p₁ ka) (
        rw (send_done h k (greeting hello_from_client) later_b p₁ Fits-hello_from_client) (
          rw (await_packets-BringsAll h (m₁ ∷ m₂ ∷ m₃ ∷ []) b b_rest later_c p₂ kb) (
            rw (send_done h k (greeting built_msg) later_c p₂ Fits-built_msg) (
              rw (await_packets-BringsAll h (n₁ ∷ n₂ ∷ n₃ ∷ []) c c_rest later p₃ kc)
                (rw (send_done h k (greeting quit) later p₃ Fits-quit) refl))))))
