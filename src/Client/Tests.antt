-- ===== src/Client/Tests.antt =====
-- The client run on concrete scripts.
use dirty_net.Prelude.{◌≡◌, refl, List, [], ◌∷◌, arith}
use dirty_net.Prelude.Int.{ℤ, pos, negsuc}
use dirty_net.ByteOrder.{big, ntohl, htonl, load32, store32}
use dirty_net.Memory.{read_at, erase_front, write_at, resize}
use dirty_net.Packet.{
  parse_packet, type_of_u32, packet_of_type, encode, create_ping, packet_of_msg, create_msg,
  u32_of_type,
}
use dirty_net.Packet.Outcomes.{IsBuffer}
use dirty_net.Stream.{ReadResult, got, get_packets}
use dirty_net.Session.{
  Session, Host, Exit, next, returns, undefined, unfinished, receive, deliver, collect_all, collect,
  send, write, close, lift,
}
use dirty_net.Session.Ensures.{Ensures}
use dirty_net.Session.Receive.{stream}
use dirty_net.Session.Progress.{Ended}
use dirty_net.Client.{Startup, main, built_msg}
use dirty_net.Client.Main.{ClientOutcome, main-ClientOutcome}

abbrev host : Host
host = record { byte_order = big; write_result = λ _ bytes. pos 0 }

abbrev started : Startup
started = record { socket_result = pos 3; connect_result = pos 0 }

abbrev with_reads : List ReadResult → Session
with_reads rs = record { reads = rs; unprocessed_bytes = []; events = [] }

-- A server's pong, three small packets in two pieces, and three greetings at once.
abbrev polite : Session
polite = with_reads (
    got (0 ∷ 0 ∷ 0 ∷ 1 ∷ [])
    ∷ got (0 ∷ 0 ∷ 0 ∷ 1 ∷ 0 ∷ 0 ∷ [])
    ∷ got (0 ∷ 0 ∷ 0 ∷ 0 ∷ 0 ∷ 2 ∷ 0 ∷ 0 ∷ 0 ∷ 1 ∷ b'x' ∷ [])
    ∷ got (
        0 ∷ 0 ∷ 0 ∷ 2 ∷ 0 ∷ 0 ∷ 0 ∷ 0 ∷ 0 ∷ 0 ∷ 0 ∷ 2 ∷ 0 ∷ 0 ∷ 0 ∷ 0 ∷ 0 ∷ 0 ∷ 0 ∷ 2 ∷ 0 ∷ 0 ∷ 0
        ∷ 0 ∷ [])
    ∷ [])

abbrev exit_code : {A : Type 0} → Exit A → ℤ
exit_code (next a s) = pos 99
exit_code (returns c s) = c
exit_code undefined = pos 98
exit_code unfinished = pos 97

run_polite : exit_code (main host started polite) ≡ pos 0
unfolding receive deliver collect_all collect send write close lift get_packets parse_packet
    type_of_u32 packet_of_type encode create_ping packet_of_msg create_msg u32_of_type read_at
    erase_front write_at ntohl htonl load32 store32 resize built_msg main
run_polite = refl

-- A ping where the pong belongs.
run_ping : exit_code (main host started (with_reads (got (0 ∷ 0 ∷ 0 ∷ 0 ∷ []) ∷ []))) ≡ negsuc 0
unfolding receive deliver collect_all collect send write lift get_packets parse_packet type_of_u32
    packet_of_type encode create_ping u32_of_type read_at erase_front write_at ntohl htonl load32
    store32 main
run_ping = refl

polite-IsBuffer : IsBuffer (stream polite)
polite-IsBuffer = record { bytes = omega arith; short = omega arith }

main-ClientOutcome_example : Ensures Ended (ClientOutcome started polite) (main host started polite)
main-ClientOutcome_example = main-ClientOutcome host started polite polite-IsBuffer
