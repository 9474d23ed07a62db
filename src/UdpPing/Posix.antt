-- ===== src/UdpPing/Posix.antt =====
-- sandbox/udp-ping/posix: client/main.cc and server/main.cc.
pub mod Laws
mod Tests
use dirty_net.Prelude.{ℕ, List, [], ◌∷◌, ◌++◌, Bool, true, false}
use dirty_net.Prelude.Int.{ℤ, pos, is_negative}
use dirty_net.ByteOrder.{ByteOrder, htons}
use dirty_net.Sandbox.{
  Address, Call, opens, binds, prints, sends, closes, System, Step, next, exits, undefined,
  and_then, M, ◌>>=◌, ◌>>◌, pure, exit, ask, call, unless_negative, receive_text,
}
use dirty_net.UdpPing.{client_greeting, server_response}

-- 127.0.0.1 is given in network order. What sendto returns is only printed.
unfoldable pub client_main : ByteOrder → System → List ℕ → ℕ → M (Unit {0})
client_main o sys buffer loopback = do
  sockfd ← ask sys opens
  unless_negative sockfd
  call (sends sockfd client_greeting (record { sin_port = htons o 8090; sin_addr = loopback }))
  text ← receive_text sys sockfd buffer 1024
  call (prints text)
  call (closes sockfd)
  exit (pos 0)

-- The address that the next recvfrom puts into `client`
abbrev pub sender_of : System → M Address
sender_of sys cs = next (sys.sender cs) cs

unfoldable pub server_main : ByteOrder → System → List ℕ → M (Unit {0})
server_main o sys buffer = do
  sock ← ask sys opens
  unless_negative sock
  b ← ask sys (binds sock (record { sin_port = htons o 8090; sin_addr = 0 }))
  unless_negative b
  client ← sender_of sys
  text ← receive_text sys sock buffer 1024
  call (prints text)
  call (sends sock server_response client)
  call (closes sock)
  exit (pos 0)
