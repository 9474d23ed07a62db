-- ===== src/Meeting/Mains.antt =====
-- The two main functions on one connection, under every schedule.
mod Tests
use dirty_net.Prelude.{ℕ, ◌≤◌, ◌⊎◌, List, [], ◌∷◌, All, arith}
use dirty_net.Prelude.Int.{pos}
use dirty_net.Packet.Shape.{Message, ping, pong, greeting, wire}
use dirty_net.Session.{Host, Event}
use dirty_net.Session.Awaits.{wires-IsChunk}
use dirty_net.Server.{hello_world, msg_100, msg_50, msg_150, quit}
use dirty_net.Server.Polite.{Writes, good_run}
use dirty_net.Server.Transcript.{Fits-hello_world, Fits-msg_100, Fits-msg_50, Fits-msg_150}
use dirty_net.Server.Talks.{server_side, turns_with, server_side-Talk}
use dirty_net.Client.{hello_from_client, built_msg}
use dirty_net.Client.Transcript.{Fits-hello_from_client, Fits-built_msg}
use dirty_net.Client.Polite.{client_run}
use dirty_net.Client.Talks.{client_side, client_side-Talk}
use dirty_net.Meeting.Network.{Network, Step, Reaches, Finished, InOrder, size}
use dirty_net.Meeting.Turns.{IsTurn}
use dirty_net.Meeting.Schedules.{Meets, Talk-Meets, completes}

abbrev pub dialogue : List (List Message)
dialogue = turns_with hello_from_client built_msg

dialogue-IsTurn : All IsTurn dialogue
dialogue-IsTurn = (
  wires-IsChunk ping [],
  (
    wires-IsChunk pong [],
    (
      wires-IsChunk (greeting hello_from_client) [],
      (
        wires-IsChunk pong (ping ∷ greeting hello_world ∷ []),
        (
          wires-IsChunk (greeting built_msg) [],
          (
            wires-IsChunk (greeting msg_100) (greeting msg_50 ∷ greeting msg_150 ∷ []),
            (wires-IsChunk (greeting quit) [], tt),
          ),
        ),
      ),
    ),
  ),
)

meets :
    (server client : Host) (connection listener socket n : ℕ) (s : Network)
    → Writes server
    → Reaches
        (server_side server (pos connection) (pos listener))
        (client_side client (pos socket))
        n
        s
    → Meets
        (server_side server (pos connection) (pos listener))
        (client_side client (pos socket))
        (good_run (pos connection) (pos listener))
        (client_run (pos socket))
        (size dialogue)
        n
        s
meets server client connection listener socket n s w r =
    Talk-Meets _ _ _ _ dialogue n s dialogue-IsTurn
      (server_side-Talk server connection listener hello_from_client built_msg w
        Fits-hello_from_client Fits-built_msg)
      (client_side-Talk client socket pong ping (greeting hello_world) (greeting msg_100)
        (greeting msg_50) (greeting msg_150) (tt, (tt, (Fits-hello_world, tt)))
        (Fits-msg_100, (Fits-msg_50, (Fits-msg_150, tt))))
      r

-- The server's and the client's main on one connection, on hosts of any byte order, where no write of
-- the server returns 0: after n reads, made by the two sides in any order, each of any number of bytes
-- (but one at least) of those sent and not yet read, n is at most the number of bytes of the dialogue,
-- and either both mains have returned 0 with the calls of a good run, each having read all that the
-- other has written, or another such read can be made; and a network where both have returned so can be
-- reached. So no schedule and no segmentation of the streams leads to a deadlock, to an endless run or
-- to an error.
pub main-Reaches :
    (server client : Host) (connection listener socket n : ℕ) (s : Network)
    → Writes server
    → Reaches
        (server_side server (pos connection) (pos listener))
        (client_side client (pos socket))
        n
        s
    → (n ≤ size dialogue)
      × (Finished
            (server_side server (pos connection) (pos listener))
            (client_side client (pos socket))
            (good_run (pos connection) (pos listener))
            (client_run (pos socket))
            s
          ⊎ ((t : Network) × Step
                (server_side server (pos connection) (pos listener))
                (client_side client (pos socket))
                s
                t))
      × ((m : ℕ) × (t : Network) × Reaches
            (server_side server (pos connection) (pos listener))
            (client_side client (pos socket))
            m
            t
          × Finished
              (server_side server (pos connection) (pos listener))
              (client_side client (pos socket))
              (good_run (pos connection) (pos listener))
              (client_run (pos socket))
              t)
main-Reaches server client connection listener socket n s w r =
    let m = meets server client connection listener socket n s w r in
    (
      m.bound,
      m.goes_on,
      completes _ _ _ _ (size dialogue)
          (λ n s r. meets server client connection listener socket n s w r) (size dialogue) n s
          (omega arith) r,
    )

-- In every network that these two mains reach, if no write of the server returns 0, each side has read
-- a prefix of what the other has written, which is a prefix of what the other writes in its good run;
-- and of the two directions, one at least has nothing under way: the sides take turns.
pub main-InOrder :
    (server client : Host) (connection listener socket n : ℕ) (s : Network)
    → Writes server
    → Reaches
        (server_side server (pos connection) (pos listener))
        (client_side client (pos socket))
        n
        s
    → InOrder
        (server_side server (pos connection) (pos listener))
        (client_side client (pos socket))
        (good_run (pos connection) (pos listener))
        (client_run (pos socket))
        s
main-InOrder server client connection listener socket n s w r =
    (meets server client connection listener socket n s w r).in_order
