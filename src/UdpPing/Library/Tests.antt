-- ===== src/UdpPing/Library/Tests.antt =====
-- The two programs over the library at concrete results.
use dirty_net.Prelude.{◌≡◌, refl, [], ◌∷◌}
use dirty_net.Prelude.Int.{pos, negsuc}
use dirty_net.ByteOrder.{little}
use dirty_net.Posix.Endpoint.{SockaddrIn, addr_info}
use dirty_net.Posix.UdpSocket.{
  socket_gave, bind_gave, closes, recv_failed, recv_got, bind_result, bind_socket, open_result,
  send_to, receive, destroy, move_construct, open_socket,
}
use dirty_net.Posix.UdpSocket.Ownership.Laws.{no_sockets}
use dirty_net.Public.UdpSocket.{public_bind, public_open, public_send_to, public_receive}
use dirty_net.UdpPing.Library.{server_endpoint, server_main, client_main}
use dirty_net.UdpPing.{client_greeting, server_response}
use dirty_net.UdpPing.Library.Exchange.{server_run, client_run, server_main-client_main}
use dirty_net.UdpPing.Library.Laws.{ServerEnds, ClientEnds, mains-Ends}

abbrev peer : SockaddrIn
peer = record { sin_family = 2; sin_port = 0x1234; sin_addr = 7; sin_zero = [] }

-- The port is in use.
bind_refused :
    (server_main little (pos 3) (negsuc 0) recv_failed (pos 0) no_sockets).world.calls
    ≡ closes (pos 3)
      ∷ bind_gave (pos 3) (addr_info little (server_endpoint little).native_endpoint) (negsuc 0)
      ∷ socket_gave (pos 3)
      ∷ []
unfolding server_main bind_result public_bind bind_socket
bind_refused = refl

mains-Ends_example :
    ServerEnds little
      (pos 3)
      (pos 0)
      (pos 17)
      (recv_got (b'h' ∷ []) peer)
      no_sockets
      (server_main little (pos 3) (pos 0) (recv_got (b'h' ∷ []) peer) (pos 17) no_sockets)
    × ClientEnds little
        (pos 3)
        (pos 17)
        (recv_got (b'h' ∷ []) peer)
        no_sockets
        (client_main little (pos 3) (pos 17) (recv_got (b'h' ∷ []) peer) no_sockets)
mains-Ends_example =
    mains-Ends little (pos 3) (pos 0) (pos 17) (recv_got (b'h' ∷ []) peer) no_sockets

abbrev server_address : SockaddrIn
server_address = record { sin_family = 2; sin_port = 0x9a1f; sin_addr = 0x0100007f; sin_zero = [] }

server_main-client_main_example :
    (server_main little (pos 3) (pos 0) (recv_got client_greeting peer) (pos 17) no_sockets
      ≡ server_run little (pos 3) (pos 0) (pos 17) peer client_greeting)
    × (client_main little (pos 4) (pos 17) (recv_got server_response server_address) no_sockets
        ≡ client_run little (pos 4) (pos 17) server_response)
unfolding server_main client_main open_result public_send_to send_to public_receive receive
    public_open destroy move_construct open_socket bind_result public_bind bind_socket addr_info
server_main-client_main_example =
    server_main-client_main little (pos 3) (pos 0) (pos 17) (pos 4) (pos 17) peer server_address
      client_greeting server_response [] [] [] [] refl refl refl refl refl refl refl
