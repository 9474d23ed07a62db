-- ===== src/Server/Polite.antt =====
-- The server and a peer that follows the protocol: the session comes to its good end.
use dirty_net.Prelude.{ℕ, ◌≡◌, refl, sym, ◌∙◌, false, List, [], ◌∷◌, ◌++◌, map, append-nil, All}
use dirty_net.Prelude.Int.{ℤ, pos, is_zero}
use dirty_net.Memory.Laws.{same_bytes_refl}
use dirty_net.Packet.{packet_of_type, packet_of_msg, create_ping, create_pong, create_msg}
use dirty_net.Packet.Shape.{Message, ping, pong, greeting, Fits, packet_of, wire}
use dirty_net.Stream.{ReadResult, got}
use dirty_net.Stream.Chunks.{concat, IsChunk}
use dirty_net.Session.{Host, Event, writes, closes, next, returns, write, lift, close}
use dirty_net.Session.Batch.{session, Arrived, receive-Arrived, collect_all-Arrived}
use dirty_net.Session.Brings.{script, send_done}
use dirty_net.Server.{
  expect_ping, expect_greeting, await_one, first_packet, send_some, send_full, hello_world, quit,
  serve, main,
}
use dirty_net.Server.Transcript.{bulk, full_packet_encoded-bulk, Fits-hello_world}

-- The reads that bring one message, in one piece or more.
pub record Brings (m : Message) (c : List ℕ) (cs : List (List ℕ)) : Type 0 where
  pub fit : Fits m
  pub first_chunk : IsChunk c
  pub chunks : All IsChunk cs
  pub bytes_are : concat (c ∷ cs) ≡ wire m

arrived :
    (h : Host) (m : Message) (c : List ℕ) (cs : List (List ℕ)) (later : List ReadResult)
    (es : List Event)
    → Brings m c cs
    → Arrived h c cs (m ∷ []) [] (map got cs ++ later) es
arrived h m c cs later es b =
    receive-Arrived h c cs (m ∷ []) [] (map got cs ++ later) es b.first_chunk (b.fit, tt)
      (b.bytes_are ∙ sym (append-nil (wire m)))

await_one-Brings :
    (h : Host) (m : Message) (c : List ℕ) (cs : List (List ℕ)) (later : List ReadResult)
    (es : List Event) (b : Brings m c cs)
    → await_one h
        (map packet_of (arrived h m c cs later es b).whole)
        (session (map got cs ++ later) (arrived h m c cs later es b).piece es)
      ≡ next (packet_of m) (session later [] es)
unfolding await_one first_packet
await_one-Brings h m c cs later es b =
    rw
      (collect_all-Arrived h c cs (m ∷ []) [] later es b.chunks (b.fit, tt)
        (arrived h m c cs later es b))
      refl

pub expect_ping-Brings :
    (h : Host) (c : List ℕ) (cs : List (List ℕ)) (later : List ReadResult) (es : List Event)
    → Brings ping c cs
    → expect_ping h (session (got c ∷ (map got cs ++ later)) [] es) ≡ next tt (session later [] es)
unfolding expect_ping packet_of packet_of_type
expect_ping-Brings h c cs later es b =
    rw ((arrived h ping c cs later es b).call) (rw (await_one-Brings h ping c cs later es b) refl)

pub expect_greeting-Brings :
    (h : Host) (msg : List ℕ) (c : List ℕ) (cs : List (List ℕ)) (later : List ReadResult)
    (es : List Event)
    → Brings (greeting msg) c cs
    → expect_greeting h (session (got c ∷ (map got cs ++ later)) [] es)
      ≡ next msg (session later [] es)
unfolding expect_greeting packet_of packet_of_msg
expect_greeting-Brings h msg c cs later es b =
    rw ((arrived h (greeting msg) c cs later es b).call)
      (rw (await_one-Brings h (greeting msg) c cs later es b) refl)

-- No write on this host returns 0.
abbrev pub Writes : Host → Type 0
Writes h = (es : List Event) (bytes : List ℕ) → is_zero (h.write_result es bytes) ≡ false

pub send_some_done :
    (h : Host) (fd : ℤ) (m : Message) (rs : List ReadResult) (es : List Event)
    → Writes h
    → Fits m
    → send_some h fd (packet_of m) (session rs [] es)
      ≡ next tt (session rs [] (es ++ (writes fd (wire m) ∷ [])))
unfolding send_some
send_some_done h fd m rs es w f = rw (send_done h fd m rs es f) (rw (w es (wire m)) refl)

pub send_full_done :
    (h : Host) (fd : ℤ) (rs : List ReadResult) (es : List Event)
    → Writes h
    → send_full h fd (session rs [] es) ≡ next tt (session rs [] (es ++ (writes fd bulk ∷ [])))
unfolding send_full lift write
send_full_done h fd rs es w = rw (full_packet_encoded-bulk h) (rw (w es bulk) refl)

-- The calls of a run that comes to its good end.
abbrev pub good_run : ℤ → ℤ → List Event
good_run connection listener =
    writes connection (wire pong)
    ∷ writes connection (wire pong)
    ∷ writes connection (wire ping)
    ∷ writes connection (wire (greeting hello_world))
    ∷ writes connection bulk
    ∷ closes connection
    ∷ closes listener
    ∷ []

-- If the calls before the session succeed, no write returns 0, and the peer sends a ping, two greetings
-- that fit and the greeting QUIT, each of which arrives in reads of its own, cut in any way into
-- non-empty pieces, then the server's main returns 0, has written its five blocks of bytes and closed both
-- descriptors, in this order, and has kept no bytes and left the later reads untouched.
pub main-good_run :
    (h : Host) (connection listener : ℕ) (hello large : List ℕ) (a b c d : List ℕ)
    (a_rest b_rest c_rest d_rest : List (List ℕ)) (later : List ReadResult)
    → Writes h
    → Brings ping a a_rest
    → Brings (greeting hello) b b_rest
    → Brings (greeting large) c c_rest
    → Brings (greeting quit) d d_rest
    → main h
        (record {
          socket_result = pos listener;
          bind_result = pos 0;
          listen_result = pos 0;
          accept_result = pos connection;
        })
        (session
          (script a a_rest (script b b_rest (script c c_rest (script d d_rest later))))
          []
          [])
      ≡ returns (pos 0) (session later [] (good_run (pos connection) (pos listener)))
unfolding main serve create_ping create_pong create_msg packet_of close
main-good_run h connection listener hello large a b c d a_rest b_rest c_rest d_rest later w ka kb kc
      kd =
    let k : ℤ = pos connection in
    let later_d : List ReadResult = script d d_rest later in
    let later_c : List ReadResult = script c c_rest later_d in
    let later_b : List ReadResult = script b b_rest later_c in
    let p₁ : List Event = writes k (wire pong) ∷ [] in
    let p₂ : List Event = p₁ ++ (writes k (wire pong) ∷ []) in
    let p₃ : List Event = p₂ ++ (writes k (wire ping) ∷ []) in
    let p₄ : List Event = p₃ ++ (writes k (wire (greeting hello_world)) ∷ []) in
    let p₅ : List Event = p₄ ++ (writes k bulk ∷ []) in
    rw (expect_ping-Brings h a a_rest later_b [] ka) (
      rw (send_done h k pong later_b [] tt) (
        rw (expect_greeting-Brings h hello b b_rest later_c p₁ kb) (
          rw (send_some_done h k pong later_c p₁ w tt) (
            rw (send_some_done h k ping later_c p₂ w tt) (
              rw (send_some_done h k (greeting hello_world) later_c p₃ w Fits-hello_world) (
                rw (expect_greeting-Brings h large c c_rest later_d p₄ kc) (
                  rw (send_full_done h k later_d p₄ w) (
                    rw (expect_greeting-Brings h quit d d_rest later p₅ kd)
                      (rw (same_bytes_refl quit) refl)))))))))
