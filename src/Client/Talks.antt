-- ===== src/Client/Talks.antt =====
-- The client as the other side of the dialogue.
use dirty_net.Prelude.{ℕ, refl, List, [], ◌∷◌, ◌++◌, map, append_assoc, append-nil, All}
use dirty_net.Prelude.Int.{ℤ, pos}
use dirty_net.Packet.{Packet, packet_of_type, packet_of_msg, create_ping, create_msg}
use dirty_net.Packet.Shape.{Message, ping, pong, greeting, Fits, packet_of, wire}
use dirty_net.Stream.{got}
use dirty_net.Session.{Host, Event, writes, M, ◌>>=◌, ◌>>◌, send, close, return_code}
use dirty_net.Session.Batch.{session}
use dirty_net.Session.Brings.{send_done}
use dirty_net.Session.Dialogue.{
  Side, Talk, hears, speaks, hears_turn, speaks_turn, last_turn, written,
}
use dirty_net.Client.{
  await_packets, all_pongs, packet_at, hello_from_client, built_msg, quit, play, main,
}
use dirty_net.Client.Transcript.{Fits-built_msg, Fits-hello_from_client, Fits-quit}
use dirty_net.Client.Polite.{client_run}
use dirty_net.Client.Awaits.{await_packets-Awaits}

-- main on a connection that is made.
abbrev pub client_side : Host → ℤ → Side
client_side h socket cs =
    main h (record { socket_result = socket; connect_result = pos 0 }) (session (map got cs) [] [])

-- The dialogue of seven turns, of which the client says the odd ones.
abbrev pub turns_of :
    Message → Message → Message → Message → Message → Message → List (List Message)
turns_of m₁ m₂ m₃ n₁ n₂ n₃ =
    (ping ∷ [])
    ∷ (pong ∷ [])
    ∷ (greeting hello_from_client ∷ [])
    ∷ (m₁ ∷ m₂ ∷ m₃ ∷ [])
    ∷ (greeting built_msg ∷ [])
    ∷ (n₁ ∷ n₂ ∷ n₃ ∷ [])
    ∷ (greeting quit ∷ [])
    ∷ []

-- The client's session behind each of its waits.
abbrev after_large : Host → ℤ → List Packet → M (Unit {0})
after_large h k large = do
  _ ← packet_at large 0
  _ ← packet_at large 1
  _ ← packet_at large 2
  _ ← send h k (create_msg quit)
  close k
  return_code (pos 0)

abbrev after_small : Host → ℤ → List Packet → M (Unit {0})
after_small h k small = do
  _ ← packet_at small 0
  _ ← packet_at small 1
  _ ← packet_at small 2
  _ ← send h k (create_msg built_msg)
  large ← await_packets h 3
  after_large h k large

abbrev after_pong : Host → ℤ → List Packet → M (Unit {0})
after_pong h k pongs = do
  all_pongs pongs
  _ ← send h k (create_msg hello_from_client)
  small ← await_packets h 3
  after_small h k small

pub client_side-Talk :
    (h : Host) (socket : ℕ) (m₁ m₂ m₃ n₁ n₂ n₃ : Message)
    → All Fits (m₁ ∷ m₂ ∷ m₃ ∷ [])
    → All Fits (n₁ ∷ n₂ ∷ n₃ ∷ [])
    → Talk speaks
        (client_side h (pos socket))
        (client_run (pos socket))
        []
        (turns_of m₁ m₂ m₃ n₁ n₂ n₃)
unfolding main play create_ping create_msg packet_of packet_of_type packet_of_msg close all_pongs
    packet_at written
client_side-Talk h socket m₁ m₂ m₃ n₁ n₂ n₃ f g =
    let k : ℤ = pos socket in
    let es : List Event = client_run k in
    let p₁ : List Event = writes k (wire ping) ∷ [] in
    let p₂ : List Event = p₁ ++ (writes k (wire (greeting hello_from_client)) ∷ []) in
    let p₃ : List Event = p₂ ++ (writes k (wire (greeting built_msg)) ∷ []) in
    let replies : List Message = m₁ ∷ m₂ ∷ m₃ ∷ [] in
    let more : List Message = n₁ ∷ n₂ ∷ n₃ ∷ [] in
    speaks_turn (ping ∷ []) _ es _ _ (
      hears_turn (await_packets h 1) (pong ∷ []) _ (λ x. after_pong h k x) _ p₁ es _ _
        (await_packets-Awaits h pong [] (tt, tt))
        (λ cs. rw (send_done h k ping (map got cs) [] tt) refl) refl
        (speaks_turn (greeting hello_from_client ∷ []) _ es _ _ (
          hears_turn (await_packets h 3) replies _ (λ x. after_small h k x) _ p₂ es _ _
            (await_packets-Awaits h m₁ (m₂ ∷ m₃ ∷ []) f)
            (λ cs.
              rw (send_done h k (greeting hello_from_client) (map got cs) p₁ Fits-hello_from_client)
                refl)
            (simp append-nil)
            (speaks_turn (greeting built_msg ∷ []) _ es _ _ (
              hears_turn (await_packets h 3) more _ (λ x. after_large h k x) _ p₃ es _ _
                (await_packets-Awaits h n₁ (n₂ ∷ n₃ ∷ []) g)
                (λ cs. rw (send_done h k (greeting built_msg) (map got cs) p₂ Fits-built_msg) refl)
                (simp (append_assoc, append-nil))
                (speaks_turn (greeting quit ∷ []) _ es _ _ (
                  last_turn hears _ es _ (rw (send_done h k (greeting quit) [] p₃ Fits-quit) refl)
                    (simp (append_assoc, append-nil)))))))))
