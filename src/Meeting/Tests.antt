-- ===== src/Meeting/Tests.antt =====
-- A meeting in which every turn arrives in one read, but the ping, which is cut in two.
use dirty_net.Prelude.{ℕ, ◌≡◌, refl, append-nil, List, [], ◌∷◌, ◌++◌}
use dirty_net.Prelude.Int.{pos}
use dirty_net.ByteOrder.{little, big, store32}
use dirty_net.Packet.Shape.{ping, pong, greeting, wire}
use dirty_net.Stream.Split.{wires}
use dirty_net.Stream.Chunks.{concat}
use dirty_net.Session.{Host, Event, returns}
use dirty_net.Session.Batch.{session}
use dirty_net.Session.Brings.{script}
use dirty_net.Server.Transcript.{Fits-hello_world, Fits-msg_100, Fits-msg_50, Fits-msg_150}
use dirty_net.Server.{hello_world, msg_100, msg_50, msg_150}
use dirty_net.Server
use dirty_net.Client.{hello_from_client, built_msg, quit}
use dirty_net.Client.Transcript.{Fits-built_msg, Fits-hello_from_client, Fits-quit}
use dirty_net.Client.Polite.{client_run, main-client_run}
use dirty_net.Client
use dirty_net.Meeting.{Pieces, main-main}
use dirty_net.Session.Dialogue.{written}
use dirty_net.Server.Talks.{small_packets, large_packets}

-- Every write gives 1.
abbrev server : Host
server = record { byte_order = little; write_result = λ es bytes. pos 1 }

abbrev client : Host
client = record { byte_order = big; write_result = λ es bytes. pos 1 }

abbrev hello : List ℕ
hello = wire (greeting hello_from_client)

abbrev built : List ℕ
built = wire (greeting built_msg)

abbrev bye : List ℕ
bye = wire (greeting quit)

meeting-Pieces :
    Pieces
      (0 ∷ 0 ∷ [])
      hello
      built
      bye
      (wire pong)
      (wires small_packets)
      (wires large_packets)
      ((0 ∷ 0 ∷ []) ∷ [])
      []
      []
      []
      []
      []
      []
unfolding wire store32
meeting-Pieces = record {
  ping_arrives = record {
    fit = tt;
    first_chunk = λ e. cc;
    chunks = ((λ e. cc), tt);
    bytes_are = refl;
  };
  hello_arrives = record {
    fit = Fits-hello_from_client;
    first_chunk = λ e. cc;
    chunks = tt;
    bytes_are = append-nil hello;
  };
  built_arrives = record {
    fit = Fits-built_msg;
    first_chunk = λ e. cc;
    chunks = tt;
    bytes_are = append-nil built;
  };
  quit_arrives = record {
    fit = Fits-quit;
    first_chunk = λ e. cc;
    chunks = tt;
    bytes_are = append-nil bye;
  };
  pong_arrives = record { fit = (tt, tt); first_chunk = λ e. cc; chunks = tt; bytes_are = refl };
  small_arrive = record {
    fit = (tt, (tt, (Fits-hello_world, tt)));
    first_chunk = λ e. cc;
    chunks = tt;
    bytes_are = append-nil (wires small_packets);
  };
  large_arrive = record {
    fit = (Fits-msg_100, (Fits-msg_50, (Fits-msg_150, tt)));
    first_chunk = λ e. cc;
    chunks = tt;
    bytes_are = append-nil (wires large_packets);
  };
}

whole_meeting :
    (served played : List Event) × (Server.main server
        (record {
          socket_result = pos 3;
          bind_result = pos 0;
          listen_result = pos 0;
          accept_result = pos 4;
        })
        (session
          (script
            (0 ∷ 0 ∷ [])
            ((0 ∷ 0 ∷ []) ∷ [])
            (script hello [] (script built [] (script bye [] []))))
          []
          [])
      ≡ returns (pos 0) (session [] [] served))
    × (Client.main client
          (record { socket_result = pos 3; connect_result = pos 0 })
          (session
            (script
              (wire pong)
              []
              (script (wires small_packets) [] (script (wires large_packets) [] [])))
            []
            [])
        ≡ returns (pos 0) (session [] [] played))
    × (written served
        ≡ concat (wire pong ∷ [])
          ++ (concat (wires small_packets ∷ []) ++ concat (wires large_packets ∷ [])))
    × (written played
        ≡ concat ((0 ∷ 0 ∷ []) ∷ (0 ∷ 0 ∷ []) ∷ [])
          ++ (concat (hello ∷ []) ++ (concat (built ∷ []) ++ concat (bye ∷ []))))
whole_meeting =
    main-main server client 4 3 3 (0 ∷ 0 ∷ []) hello built bye (wire pong) (wires small_packets)
      (wires large_packets) ((0 ∷ 0 ∷ []) ∷ []) [] [] [] [] [] [] (λ es bytes. refl) meeting-Pieces

main-client_run_example :
    Client.main client
      (record { socket_result = pos 3; connect_result = pos 0 })
      (session
        (script
          (wire pong)
          []
          (script (wires small_packets) [] (script (wires large_packets) [] [])))
        []
        [])
    ≡ returns (pos 0) (session [] [] (client_run (pos 3)))
main-client_run_example =
    main-client_run client 3 pong ping (greeting hello_world) (greeting msg_100) (greeting msg_50)
      (greeting msg_150) (wire pong) (wires small_packets) (wires large_packets) [] [] [] []
      meeting-Pieces.pong_arrives meeting-Pieces.small_arrive meeting-Pieces.large_arrive
