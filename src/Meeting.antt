-- ===== src/Meeting.antt =====
-- The server and the client of sandbox/tcp-packet/posix against one another.
pub mod Network
pub mod Turns
pub mod Reads
pub mod Order
pub mod Schedules
pub mod Mains
mod Tests
use dirty_net.Prelude.{ℕ, ◌≡◌, refl, sym, ap, ◌∙◌, append_assoc, append-nil, List, [], ◌∷◌, ◌++◌}
use dirty_net.Prelude.Int.{ℤ, pos}
use dirty_net.Packet.Shape.{Message, ping, pong, greeting, wire}
use dirty_net.Stream.Split.{wires}
use dirty_net.Stream.Chunks.{concat}
use dirty_net.Session.{Host, Event, writes, closes, returns}
use dirty_net.Session.Batch.{session}
use dirty_net.Session.Brings.{BringsAll, script}
use dirty_net.Session.Dialogue.{written}
use dirty_net.Server.{hello_world, msg_100, msg_50, msg_150}
use dirty_net.Server
use dirty_net.Server.Talks.{small_packets, large_packets}
use dirty_net.Server.Polite.{Brings, Writes, good_run, main-good_run}
use dirty_net.Client.{hello_from_client, built_msg, quit}
use dirty_net.Client
use dirty_net.Client.Polite.{client_run, main-client_run}

-- The pieces in which the messages of each side arrive at the other.
pub record Pieces (a b c d x y z : List ℕ)
    (a_rest b_rest c_rest d_rest x_rest y_rest z_rest : List (List ℕ)) : Type 0 where
  pub ping_arrives : Brings ping a a_rest
  pub hello_arrives : Brings (greeting hello_from_client) b b_rest
  pub built_arrives : Brings (greeting built_msg) c c_rest
  pub quit_arrives : Brings (greeting quit) d d_rest
  pub pong_arrives : BringsAll (pong ∷ []) x x_rest
  pub small_arrive : BringsAll small_packets y y_rest
  pub large_arrive : BringsAll large_packets z z_rest

one_by_one :
    (p q r s u v w : List ℕ)
    → p ++ (q ++ (r ++ (s ++ ((u ++ (v ++ w)) ++ []))))
      ≡ (p ++ []) ++ ((q ++ (r ++ (s ++ []))) ++ (u ++ (v ++ (w ++ []))))
one_by_one p q r s u v w = simp (append_assoc, append-nil)

last_nothing : (p q r s : List ℕ) → p ++ (q ++ (r ++ (s ++ []))) ≡ p ++ (q ++ (r ++ s))
last_nothing p q r s = simp append-nil

-- On two hosts of any byte order, if no write of the server returns 0 and each side reads what
-- the other side sends, the messages of each turn in reads of their own, cut in any way into non-
-- empty pieces, then both main functions return 0, have read all of it and kept no bytes, and the
-- bytes that each has written are those that the other has read.
pub main-main :
    (server client : Host) (connection listener socket : ℕ) (a b c d x y z : List ℕ)
    (a_rest b_rest c_rest d_rest x_rest y_rest z_rest : List (List ℕ))
    → Writes server
    → Pieces a b c d x y z a_rest b_rest c_rest d_rest x_rest y_rest z_rest
    → (served played : List Event) × (Server.main server
          (record {
            socket_result = pos listener;
            bind_result = pos 0;
            listen_result = pos 0;
            accept_result = pos connection;
          })
          (session (script a a_rest (script b b_rest (script c c_rest (script d d_rest [])))) [] [])
        ≡ returns (pos 0) (session [] [] served))
      × (Client.main client
            (record { socket_result = pos socket; connect_result = pos 0 })
            (session (script x x_rest (script y y_rest (script z z_rest []))) [] [])
          ≡ returns (pos 0) (session [] [] played))
      × (written served ≡ concat (x ∷ x_rest) ++ (concat (y ∷ y_rest) ++ concat (z ∷ z_rest)))
      × (written played
          ≡ concat (a ∷ a_rest)
            ++ (concat (b ∷ b_rest) ++ (concat (c ∷ c_rest) ++ concat (d ∷ d_rest))))
unfolding written
main-main server client connection listener socket a b c d x y z a_rest b_rest c_rest d_rest x_rest
      y_rest z_rest w p =
    (
      good_run (pos connection) (pos listener),
      client_run (pos socket),
      main-good_run server connection listener hello_from_client built_msg a b c d a_rest b_rest
          c_rest d_rest [] w p.ping_arrives p.hello_arrives p.built_arrives p.quit_arrives,
      main-client_run client socket pong ping (greeting hello_world) (greeting msg_100)
          (greeting msg_50) (greeting msg_150) x y z x_rest y_rest z_rest [] p.pong_arrives
          p.small_arrive p.large_arrive,
      rw (p.pong_arrives.bytes_are, p.small_arrive.bytes_are, p.large_arrive.bytes_are)
          (one_by_one (wire pong) (wire pong) (wire ping) (wire (greeting hello_world))
            (wire (greeting msg_100)) (wire (greeting msg_50)) (wire (greeting msg_150))),
      rw
          (
            p.ping_arrives.bytes_are, p.hello_arrives.bytes_are, p.built_arrives.bytes_are,
            p.quit_arrives.bytes_are,
          )
          (last_nothing (wire ping) (wire (greeting hello_from_client)) (wire (greeting built_msg))
            (wire (greeting quit))),
    )
