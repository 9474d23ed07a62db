-- ===== src/UdpPing/Agree/Tests.antt =====
-- Both servers answer a greeting, and both clients print a response.
use dirty_net.Prelude.{ℕ, refl, List, [], arith, replicate, length-replicate}
use dirty_net.Prelude.Int.{pos}
use dirty_net.ByteOrder.{little}
use dirty_net.Posix.Ip.{ipv4_localhost}
use dirty_net.Posix.UdpSocket.{recv_got}
use dirty_net.Posix.UdpSocket.Ownership.Laws.{no_sockets}
use dirty_net.Stream.{got}
use dirty_net.Sandbox.{Address, System}
use dirty_net.UdpPing.{client_greeting, server_response}
use dirty_net.UdpPing.Posix.{server_main, client_main}
use dirty_net.UdpPing.Library
use dirty_net.UdpPing.Agree.{
  struct_of_address, Agree, server_main-server_main, client_main-client_main,
}

abbrev peer : Address
peer = record { sin_port = 0x1234; sin_addr = 7 }

-- Every call gives 5, and a message comes from `peer`.
abbrev receiving : List ℕ → System
receiving bytes = record { result = λ t c. pos 5; input = λ t. got bytes; sender = λ t. peer }

server_main-server_main_example :
    Agree little (server_main little (receiving client_greeting) (replicate 1024 7) []) (
      Library.server_main little
        (pos 5)
        (pos 5)
        (recv_got client_greeting (struct_of_address peer))
        (pos 17)
        no_sockets)
server_main-server_main_example =
    server_main-server_main little (receiving client_greeting) (replicate 1024 7) client_greeting
      (pos 17) (length-replicate {A = ℕ} 1024 7) refl refl refl (omega arith) (omega arith) refl

client_main-client_main_example :
    Agree little
      (client_main little
        (receiving server_response)
        (replicate 1024 7)
        (ipv4_localhost little).s_addr
        [])
      (Library.client_main little
        (pos 5)
        (pos 17)
        (recv_got server_response (struct_of_address peer))
        no_sockets)
client_main-client_main_example =
    client_main-client_main little (receiving server_response) (replicate 1024 7) server_response
      (struct_of_address peer) (pos 17) (length-replicate {A = ℕ} 1024 7) refl refl (omega arith)
      (omega arith) refl
