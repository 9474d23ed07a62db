-- ===== src/Server/Tests.antt =====
-- The server run on concrete scripts.
use dirty_net.Prelude.{◌≡◌, refl, List, [], ◌∷◌, arith}
use dirty_net.Prelude.Int.{ℤ, pos, negsuc}
use dirty_net.ByteOrder.{little, ntohl, htonl, load32, store32}
use dirty_net.Memory.{read_at, erase_front, write_at, same_bytes, resize}
use dirty_net.Packet.{
  parse_packet, type_of_u32, packet_of_type, encode, create_pong, create_ping, packet_of_msg,
  create_msg, u32_of_type,
}
use dirty_net.Packet.Outcomes.{IsBuffer}
use dirty_net.Stream.{failed, ReadResult, got, get_packets}
use dirty_net.Session.{
  Session, Host, Exit, next, returns, undefined, unfinished, receive, deliver, collect_all, collect,
  send, write, close, lift,
}
use dirty_net.Session.Ensures.{Ensures}
use dirty_net.Session.Receive.{stream}
use dirty_net.Server.{quit, Startup, main, msg_100, msg_50, msg_150}
use dirty_net.Packet.Shape.{ping, greeting, wire}
use dirty_net.Session.Batch.{session}
use dirty_net.Session.Brings.{script}
use dirty_net.Server.Polite.{Brings, good_run, main-good_run}
use dirty_net.Server.Main.{ServerOutcome, main-ServerOutcome}
use dirty_net.Session.Progress.{Ended}

-- A host whose writes are complete, and a server that starts.
abbrev host : Host
host = record { byte_order = little; write_result = λ _ bytes. pos 1 }

abbrev started : Startup
started = record {
  socket_result = pos 3;
  bind_result = pos 0;
  listen_result = pos 0;
  accept_result = pos 4;
}

abbrev with_reads : List ReadResult → Session
with_reads rs = record { reads = rs; unprocessed_bytes = []; events = [] }

-- A client's ping, two greetings (the first in two pieces) and QUIT.
abbrev polite : Session
polite = with_reads (
    got (0 ∷ 0 ∷ 0 ∷ 0 ∷ [])
    ∷ got (0 ∷ 0 ∷ 0 ∷ 2 ∷ 0 ∷ [])
    ∷ got (0 ∷ 0 ∷ 2 ∷ b'h' ∷ b'i' ∷ [])
    ∷ got (0 ∷ 0 ∷ 0 ∷ 2 ∷ 0 ∷ 0 ∷ 0 ∷ 1 ∷ b'x' ∷ [])
    ∷ got (0 ∷ 0 ∷ 0 ∷ 2 ∷ 0 ∷ 0 ∷ 0 ∷ 4 ∷ b'Q' ∷ b'U' ∷ b'I' ∷ b'T' ∷ [])
    ∷ [])

abbrev exit_code : {A : Type 0} → Exit A → ℤ
exit_code (next a s) = pos 99
exit_code (returns c s) = c
exit_code undefined = pos 98
exit_code unfinished = pos 97

run_polite : exit_code (main host started polite) ≡ pos 0
unfolding receive deliver collect_all collect send write close lift get_packets parse_packet
    type_of_u32 packet_of_type encode create_pong create_ping packet_of_msg create_msg u32_of_type
    read_at erase_front write_at same_bytes ntohl htonl load32 store32 resize msg_100 msg_50 msg_150
    main
run_polite = refl

polite-IsBuffer : IsBuffer (stream polite)
polite-IsBuffer = record { bytes = omega arith; short = omega arith }

main-ServerOutcome_example : Ensures Ended (ServerOutcome started polite) (main host started polite)
main-ServerOutcome_example = main-ServerOutcome host started polite polite-IsBuffer

-- A bound port: main ends with what bind returned.
run_no_bind :
    main host (record started { bind_result = negsuc 0 }) polite ≡ returns (negsuc 0) polite
unfolding main
run_no_bind = refl

-- The client hangs up before its ping.
run_hang_up : exit_code (main host started (with_reads [])) ≡ negsuc 0
unfolding receive deliver get_packets main
run_hang_up = refl

-- The second message is cut inside its length, the last one in four pieces.
a-Brings : Brings ping (0 ∷ 0 ∷ []) ((0 ∷ 0 ∷ []) ∷ [])
unfolding wire store32
a-Brings = record { fit = tt; first_chunk = λ e. cc; chunks = ((λ e. cc), tt); bytes_are = refl }

b-Brings : Brings (greeting (b'h' ∷ [])) (0 ∷ 0 ∷ 0 ∷ 2 ∷ 0 ∷ []) ((0 ∷ 0 ∷ 1 ∷ b'h' ∷ []) ∷ [])
unfolding wire store32
b-Brings = record {
  fit = omega arith;
  first_chunk = λ e. cc;
  chunks = ((λ e. cc), tt);
  bytes_are = refl;
}

c-Brings : Brings (greeting []) (0 ∷ 0 ∷ 0 ∷ 2 ∷ 0 ∷ 0 ∷ 0 ∷ 0 ∷ []) []
unfolding wire store32
c-Brings = record { fit = omega arith; first_chunk = λ e. cc; chunks = tt; bytes_are = refl }

d-Brings :
    Brings
      (greeting quit)
      (0 ∷ [])
      ((0 ∷ []) ∷ (0 ∷ []) ∷ (2 ∷ 0 ∷ 0 ∷ 0 ∷ 4 ∷ b'Q' ∷ b'U' ∷ b'I' ∷ b'T' ∷ []) ∷ [])
unfolding wire store32
d-Brings = record {
  fit = omega arith;
  first_chunk = λ e. cc;
  chunks = ((λ e. cc), ((λ e. cc), ((λ e. cc), tt)));
  bytes_are = refl;
}

main-good_run_example :
    main host
      (record {
        socket_result = pos 3;
        bind_result = pos 0;
        listen_result = pos 0;
        accept_result = pos 4;
      })
      (session
        (script (0 ∷ 0 ∷ []) ((0 ∷ 0 ∷ []) ∷ []) (
          script (0 ∷ 0 ∷ 0 ∷ 2 ∷ 0 ∷ []) ((0 ∷ 0 ∷ 1 ∷ b'h' ∷ []) ∷ []) (
            script (0 ∷ 0 ∷ 0 ∷ 2 ∷ 0 ∷ 0 ∷ 0 ∷ 0 ∷ []) [] (
              script
                (0 ∷ [])
                ((0 ∷ []) ∷ (0 ∷ []) ∷ (2 ∷ 0 ∷ 0 ∷ 0 ∷ 4 ∷ b'Q' ∷ b'U' ∷ b'I' ∷ b'T' ∷ []) ∷ [])
                (failed ∷ [])))))
        []
        [])
    ≡ returns (pos 0) (session (failed ∷ []) [] (good_run (pos 4) (pos 3)))
main-good_run_example =
    main-good_run host 4 3 (b'h' ∷ []) [] (0 ∷ 0 ∷ []) (0 ∷ 0 ∷ 0 ∷ 2 ∷ 0 ∷ [])
      (0 ∷ 0 ∷ 0 ∷ 2 ∷ 0 ∷ 0 ∷ 0 ∷ 0 ∷ []) (0 ∷ []) ((0 ∷ 0 ∷ []) ∷ [])
      ((0 ∷ 0 ∷ 1 ∷ b'h' ∷ []) ∷ []) []
      ((0 ∷ []) ∷ (0 ∷ []) ∷ (2 ∷ 0 ∷ 0 ∷ 0 ∷ 4 ∷ b'Q' ∷ b'U' ∷ b'I' ∷ b'T' ∷ []) ∷ [])
      (failed ∷ []) (λ es bytes. refl) a-Brings b-Brings c-Brings d-Brings
