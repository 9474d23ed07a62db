-- ===== src/Stream/Tests.antt =====
-- get_packets at concrete inputs.
use dirty_net.Prelude.{ℕ, ◌≡◌, refl, List, [], ◌∷◌, map, done, arith}
use dirty_net.ByteOrder.{little, store32}
use dirty_net.Packet.Shape.{pong, greeting, packet_of, wire}
use dirty_net.Stream.{got, received_ok, get_packets}
use dirty_net.Stream.Loop.{Ends}
use dirty_net.Stream.Chunks.{gather, gather-wires, get_packets-Ends}

abbrev two_reads : List (List ℕ)
two_reads = (0 ∷ 0 ∷ 0 ∷ []) ∷ (1 ∷ 0 ∷ 0 ∷ 0 ∷ 2 ∷ 0 ∷ 0 ∷ 0 ∷ 1 ∷ 65 ∷ []) ∷ []

gather-wires_example :
    gather little (map got two_reads) (received_ok [] [])
    ≡ done (received_ok (map packet_of (pong ∷ greeting (65 ∷ []) ∷ [])) [])
unfolding wire store32
gather-wires_example =
    gather-wires little (pong ∷ greeting (65 ∷ []) ∷ []) two_reads (tt, ((omega arith), tt))
      ((λ e. cc), ((λ e. cc), tt)) refl

get_packets-Ends_example :
    Ends little (0 ∷ 0 ∷ 0 ∷ 9 ∷ []) [] (get_packets little (got (9 ∷ [])) (0 ∷ 0 ∷ 0 ∷ []))
get_packets-Ends_example =
    get_packets-Ends little (9 ∷ []) (0 ∷ 0 ∷ 0 ∷ []) (λ e. cc)
      (record { bytes = omega arith; short = omega arith })
