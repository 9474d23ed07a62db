-- ===== src/UdpMany/Clients.antt =====
-- The main functions of unicast-client/main.cc and multicast-client/main.cc.
pub mod Laws
mod Tests
use dirty_net.Prelude.{ℕ, List, [], ◌∷◌, Option, none, some, Bool, true, false}
use dirty_net.Prelude.Int.{ℤ, pos, is_negative}
use dirty_net.ByteOrder.{ByteOrder}
use dirty_net.UdpMany.ParsePort.{parse_port}
use dirty_net.Sandbox.{
  Address, Call, opens, sets_option, binds, prints, closes, System, Step, next, exits, undefined,
  and_then, M, ◌>>=◌, ◌>>◌, pure, exit, ask, call, unless_negative, receive_text,
}

-- INADDR_ANY is 0 in every byte order.
abbrev pub any_address : ℕ → Address
any_address port = record { sin_port = port; sin_addr = 0 }

-- Where both programs end: recvfrom into `char buffer[1024]`, which holds anything, the output, and close.
unfoldable pub receive_and_print : System → List ℕ → ℤ → M (Unit {0})
receive_and_print sys buffer fd = do
  text ← receive_text sys fd buffer 1024
  call (prints text)
  call (closes fd)
  exit (pos 0)

-- unicast-client's main once the port is known
unfoldable pub unicast_client : System → List ℕ → ℕ → M (Unit {0})
unfolding receive_and_print
unicast_client sys buffer port = do
  sockfd ← ask sys opens
  unless_negative sockfd
  bound ← ask sys (binds sockfd (any_address port))
  unless_negative bound
  receive_and_print sys buffer sockfd

abbrev pub reuseaddr : ℕ
reuseaddr = 2

abbrev pub add_membership : ℕ
add_membership = 35

-- multicast-client's main once the port is known. An option is named by its number on Linux.
unfoldable pub multicast_client : System → List ℕ → ℕ → M (Unit {0})
unfolding receive_and_print
multicast_client sys buffer port = do
  sockfd ← ask sys opens
  unless_negative sockfd
  reuse ← ask sys (sets_option sockfd reuseaddr)
  unless_negative reuse
  bound ← ask sys (binds sockfd (any_address port))
  unless_negative bound
  joined ← ask sys (sets_option sockfd add_membership)
  unless_negative joined
  receive_and_print sys buffer sockfd

abbrev port_or_usage : Option ℕ → (ℕ → M (Unit {0})) → M (Unit {0})
port_or_usage none rest = exit (pos 1)
port_or_usage (some p) rest = rest p

-- `argc != 2`, and a parsePort that fails, end both programs with 1.
unfoldable pub with_port : ByteOrder → List (List ℕ) → (ℕ → M (Unit {0})) → M (Unit {0})
with_port o (program ∷ arg ∷ []) rest = port_or_usage (parse_port o arg) rest
with_port o _ rest = exit (pos 1)

-- main(argc, argv) of unicast-client/main.cc
unfoldable pub unicast_main : ByteOrder → System → List ℕ → List (List ℕ) → M (Unit {0})
unfolding unicast_client with_port
unicast_main o sys buffer argv = with_port o argv (unicast_client sys buffer)

-- main(argc, argv) of multicast-client/main.cc
unfoldable pub multicast_main : ByteOrder → System → List ℕ → List (List ℕ) → M (Unit {0})
unfolding multicast_client with_port
multicast_main o sys buffer argv = with_port o argv (multicast_client sys buffer)
