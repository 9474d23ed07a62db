-- ===== src/Meeting/Mains/Tests.antt =====
-- Three reads of a meeting: the server reads the ping in two pieces, and the client one byte of the pong.
use dirty_net.Prelude.{ℕ, ◌≤◌, ◌≡◌, ◌⊎◌, refl, List, [], ◌∷◌, ◌++◌}
use dirty_net.Prelude.Int.{pos}
use dirty_net.ByteOrder.{little, big, store32}
use dirty_net.Packet.Shape.{ping, pong, greeting, wire}
use dirty_net.Session.{Host}
use dirty_net.Session.Dialogue.{Side, Talk, said}
use dirty_net.Server.{hello_world, msg_100, msg_50, msg_150}
use dirty_net.Server.Polite.{good_run}
use dirty_net.Server.Transcript.{Fits-hello_world, Fits-msg_100, Fits-msg_50, Fits-msg_150}
use dirty_net.Server.Talks.{server_side, server_side-Talk}
use dirty_net.Client.{hello_from_client, built_msg}
use dirty_net.Client.Transcript.{Fits-hello_from_client, Fits-built_msg}
use dirty_net.Client.Polite.{client_run}
use dirty_net.Client.Talks.{client_side, client_side-Talk}
use dirty_net.Meeting.Network.{
  Network, delivers, Step, server_reads_more, client_reads_more, Reaches, start, later, Finished,
  InOrder, size,
}
use dirty_net.Meeting.Mains.{dialogue, main-Reaches, main-InOrder}

-- Every write gives 1.
abbrev little_host : Host
little_host = record { byte_order = little; write_result = λ es bytes. pos 1 }

abbrev big_host : Host
big_host = record { byte_order = big; write_result = λ es bytes. pos 1 }

abbrev server : Side
server = server_side little_host (pos 4) (pos 3)

abbrev client : Side
client = client_side big_host (pos 3)

abbrev pieces : List (List ℕ)
pieces = (0 ∷ 0 ∷ []) ∷ (0 ∷ 0 ∷ []) ∷ []

said-client : said client [] ≡ wire ping
unfolding Talk wire store32
said-client =
    (client_side-Talk big_host 3 pong ping (greeting hello_world) (greeting msg_100)
        (greeting msg_50) (greeting msg_150) (tt, (tt, (Fits-hello_world, tt)))
        (Fits-msg_100, (Fits-msg_50, (Fits-msg_150, tt)))).0
      [] (wire pong) (record { chunks = ((λ e. cc), tt); bytes_are = refl })

said-server : said server pieces ≡ wire pong
unfolding Talk wire store32 said
said-server =
    ((server_side-Talk little_host 4 3 hello_from_client built_msg (λ es bytes. refl)
          Fits-hello_from_client Fits-built_msg).1
        pieces (record { chunks = ((λ e. cc), ((λ e. cc), tt)); bytes_are = refl })).0
      [] (wire (greeting hello_from_client) ++ [])
      (record { chunks = ((λ e. cc), tt); bytes_are = refl })

abbrev after_three : Network
after_three = record { server_reads = pieces; client_reads = (0 ∷ []) ∷ [] }

three_reads : Reaches server client 3 after_three
unfolding wire store32
three_reads =
    later 2 _ _
      (later 1 _ _
        (later 0 _ _ start
          (server_reads_more [] [] _ (delivers (0 ∷ 0 ∷ []) (0 ∷ 0 ∷ []) (λ e. cc) said-client)))
        (server_reads_more ((0 ∷ 0 ∷ []) ∷ []) [] _
          (delivers (0 ∷ 0 ∷ []) [] (λ e. cc) said-client)))
      (client_reads_more pieces [] _ (delivers (0 ∷ []) (0 ∷ 0 ∷ 1 ∷ []) (λ e. cc) said-server))

main-Reaches_example :
    (3 ≤ size dialogue)
    × (Finished server client (good_run (pos 4) (pos 3)) (client_run (pos 3)) after_three
        ⊎ ((t : Network) × Step server client after_three t))
    × ((m : ℕ) × (t : Network) × Reaches server client m t
        × Finished server client (good_run (pos 4) (pos 3)) (client_run (pos 3)) t)
main-Reaches_example =
    main-Reaches little_host big_host 4 3 3 3 after_three (λ es bytes. refl) three_reads

main-InOrder_example :
    InOrder server client (good_run (pos 4) (pos 3)) (client_run (pos 3)) after_three
main-InOrder_example =
    main-InOrder little_host big_host 4 3 3 3 after_three (λ es bytes. refl) three_reads
