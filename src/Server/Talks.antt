-- ===== src/Server/Talks.antt =====
-- The server as one side of a dialogue.
use dirty_net.Prelude.{ℕ, refl, List, [], ◌∷◌, ◌++◌, map, append_assoc, append-nil, arith}
use dirty_net.Prelude.Int.{ℤ, pos}
use dirty_net.Memory.{same_bytes}
use dirty_net.Memory.Laws.{same_bytes_refl}
use dirty_net.Packet.{create_ping, create_pong, create_msg}
use dirty_net.Packet.Shape.{Message, ping, pong, greeting, Fits, packet_of, wire}
use dirty_net.Stream.{got}
use dirty_net.Session.{Host, Event, writes, M, ◌>>=◌, ◌>>◌, send, close, require, return_code}
use dirty_net.Session.Batch.{session}
use dirty_net.Session.Brings.{send_done}
use dirty_net.Session.Dialogue.{
  Side, Talk, hears, speaks, hears_turn, speaks_turn, last_turn, written,
}
use dirty_net.Server.{
  expect_ping, expect_greeting, send_some, send_full, hello_world, msg_100, msg_50, msg_150, quit,
  serve, main,
}
use dirty_net.Server.Transcript.{bulk, Fits-hello_world}
use dirty_net.Server.Polite.{Writes, good_run, send_some_done, send_full_done}
use dirty_net.Server.Awaits.{expect_ping-Awaits, expect_greeting-Awaits}

-- main on the descriptors that its four calls have given.
abbrev pub server_side : Host → ℤ → ℤ → Side
server_side h connection listener cs =
    main h
      (record {
        socket_result = listener;
        bind_result = pos 0;
        listen_result = pos 0;
        accept_result = connection;
      })
      (session (map got cs) [] [])

-- What the server sends behind the client's first greeting, and behind its second.
abbrev pub small_packets : List Message
small_packets = pong ∷ ping ∷ greeting hello_world ∷ []

abbrev pub large_packets : List Message
large_packets = greeting msg_100 ∷ greeting msg_50 ∷ greeting msg_150 ∷ []

-- The dialogue of seven turns, of which the server says the even ones.
abbrev pub turns_with : List ℕ → List ℕ → List (List Message)
turns_with hello large =
    (ping ∷ [])
    ∷ (pong ∷ [])
    ∷ (greeting hello ∷ [])
    ∷ small_packets
    ∷ (greeting large ∷ [])
    ∷ large_packets
    ∷ (greeting quit ∷ [])
    ∷ []

-- The server's session behind each of its waits.
abbrev after_quit : ℤ → ℤ → List ℕ → M (Unit {0})
after_quit k l msg = do require (same_bytes msg quit); close k; close l; return_code (pos 0)

abbrev after_large : Host → ℤ → ℤ → M (Unit {0})
after_large h k l = do send_full h k; msg ← expect_greeting h; after_quit k l msg

abbrev after_hello : Host → ℤ → ℤ → M (Unit {0})
after_hello h k l = do
  send_some h k create_pong
  send_some h k create_ping
  send_some h k (create_msg hello_world)
  _ ← expect_greeting h
  after_large h k l

abbrev after_ping : Host → ℤ → ℤ → M (Unit {0})
after_ping h k l = do _ ← send h k create_pong; _ ← expect_greeting h; after_hello h k l

pub server_side-Talk :
    (h : Host) (connection listener : ℕ) (hello large : List ℕ)
    → Writes h
    → Fits (greeting hello)
    → Fits (greeting large)
    → Talk hears
        (server_side h (pos connection) (pos listener))
        (good_run (pos connection) (pos listener))
        []
        (turns_with hello large)
unfolding main serve create_ping create_pong create_msg packet_of close written
server_side-Talk h connection listener hello large w f g =
    let k : ℤ = pos connection in
    let l : ℤ = pos listener in
    let es : List Event = good_run k l in
    let p₁ : List Event = writes k (wire pong) ∷ [] in
    let p₂ : List Event = p₁ ++ (writes k (wire pong) ∷ []) in
    let p₃ : List Event = p₂ ++ (writes k (wire ping) ∷ []) in
    let p₄ : List Event = p₃ ++ (writes k (wire (greeting hello_world)) ∷ []) in
    let p₅ : List Event = p₄ ++ (writes k bulk ∷ []) in
    hears_turn (expect_ping h) (ping ∷ []) tt (λ _. after_ping h k l) _ [] es [] _
      (expect_ping-Awaits h) (λ cs. refl) refl
      (speaks_turn (pong ∷ []) _ es _ _ (
        hears_turn (expect_greeting h) (greeting hello ∷ []) hello (λ _. after_hello h k l) _ p₁ es
          _ _ (expect_greeting-Awaits h hello f)
          (λ cs. rw (send_done h k pong (map got cs) [] tt) refl) refl
          (speaks_turn small_packets _ es _ _ (
            hears_turn (expect_greeting h) (greeting large ∷ []) large (λ _. after_large h k l) _ p₄
              es _ _ (expect_greeting-Awaits h large g)
              (λ cs. rw (send_some_done h k pong (map got cs) p₁ w tt) (
                rw (send_some_done h k ping (map got cs) p₂ w tt) (
                  rw (send_some_done h k (greeting hello_world) (map got cs) p₃ w Fits-hello_world)
                    refl)))
              (simp append-nil)
              (speaks_turn large_packets _ es _ _ (
                hears_turn (expect_greeting h) (greeting quit ∷ []) quit (λ msg. after_quit k l msg)
                  _ p₅ es _ _ (expect_greeting-Awaits h quit (omega arith))
                  (λ cs. rw (send_full_done h k (map got cs) p₄ w) refl)
                  (simp (append_assoc, append-nil))
                  (last_turn speaks _ es _ (rw (same_bytes_refl quit) refl)
                    (simp (append_assoc, append-nil)))))))))
