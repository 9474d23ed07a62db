-- ===== src/UdpMany/Host.antt =====
-- The main function of host/main.cc.
pub mod Keeps
pub mod Laws
pub mod Greets
mod Tests
use dirty_net.Prelude.{ℕ, List, [], ◌∷◌, ◌++◌, map, Bool, true, false, ltb, ◌==◌, if◌then◌else◌}
use dirty_net.Prelude.Int.{ℤ, pos, negsuc, is_negative}
use dirty_net.ByteOrder.{ByteOrder, htons, ntohs}
use dirty_net.Text.{to_string}
use dirty_net.Sandbox.{
  Address, Call, opens, sets_option, sends, closes, System, Step, next, exits, undefined, and_then,
  M, ◌>>=◌, ◌>>◌, pure, exit, ask, call,
}

-- client_targets: a socket and an address for each port. INADDR_ANY is 0.
pub record Target : Type 0 where
  pub fd : ℤ
  pub address : Address

-- The globals; the multicast socket is 0 until it is made.
pub record Globals : Type 0 where
  pub client_targets : List Target
  pub multi_sockfd : ℤ

unfoldable pub unicast_ports : ByteOrder → List ℕ
unicast_ports o = htons o 9000 ∷ htons o 9001 ∷ htons o 9002 ∷ htons o 9003 ∷ []

-- cleanup(retval)
pub close_targets : List Target → M (Unit {0})
close_targets [] = pure tt
close_targets (t ∷ ts) = do call (closes t.fd); close_targets ts

pub cleanup : Globals → ℤ → M (Unit {0})
unfolding close_targets
cleanup g retval = do close_targets g.client_targets; call (closes g.multi_sockfd); exit retval

-- The first loop. A socket that could not be made is kept as well.
pub open_targets : System → List ℕ → List Target → M (List Target)
open_targets sys [] targets = pure targets
open_targets sys (port ∷ ports) targets = do
  sock ← ask sys opens
  open_targets sys ports
      (targets ++ (record { fd = sock; address = record { sin_port = port; sin_addr = 0 } } ∷ []))

-- setsockopt, which ends main if it fails
pub set_option : System → Globals → ℕ → M (Unit {0})
unfolding cleanup
set_option sys g option = do
  sockop ← ask sys (sets_option g.multi_sockfd option)
  if is_negative sockop then cleanup g sockop else pure tt

-- bytesWritten < 1
abbrev pub less_than_one : ℤ → Bool
less_than_one (pos n) = n == 0
less_than_one (negsuc n) = true

-- sendto, which ends main if it writes nothing
pub send_greeting : System → Globals → ℤ → List ℕ → Address → M (Unit {0})
unfolding cleanup
send_greeting sys g fd greeting to = do
  bytes_written ← ask sys (sends fd greeting to)
  if less_than_one bytes_written then cleanup g bytes_written else pure tt

abbrev pub hello_to_port : List ℕ
hello_to_port =
    b'h' ∷ b'e' ∷ b'l' ∷ b'l' ∷ b'o' ∷ 32 ∷ b't' ∷ b'o' ∷ 32 ∷ b'p' ∷ b'o' ∷ b'r' ∷ b't' ∷ 32 ∷ []

abbrev pub hello_multicast : List ℕ
hello_multicast =
    b'H' ∷ b'e' ∷ b'l' ∷ b'l' ∷ b'o' ∷ 32 ∷ b'm' ∷ b'u' ∷ b'l' ∷ b't' ∷ b'i' ∷ b'c' ∷ b'a' ∷ b's'
    ∷ b't' ∷ b'!' ∷ []

-- "hello to port " + portString
pub greeting_for : ByteOrder → Target → List ℕ
greeting_for o t = hello_to_port ++ to_string (ntohs o t.address.sin_port)

-- The second loop.
pub greet_targets : ByteOrder → System → Globals → List Target → M (Unit {0})
unfolding send_greeting greeting_for
greet_targets o sys g [] = pure tt
greet_targets o sys g (t ∷ ts) = do
  send_greeting sys g t.fd (greeting_for o t) t.address
  greet_targets o sys g ts

-- The options by their numbers on Linux: IP_MULTICAST_TTL, IP_MULTICAST_LOOP and IP_MULTICAST_IF
abbrev pub multicast_ttl : ℕ
multicast_ttl = 33

abbrev pub multicast_loop : ℕ
multicast_loop = 34

abbrev pub multicast_if : ℕ
multicast_if = 32

-- main once all sockets are made. `group` is the address that inet_pton gives for 239.0.0.1.
pub serve_clients : ByteOrder → System → ℕ → Globals → M (Unit {0})
unfolding set_option greet_targets cleanup
serve_clients o sys group g = do
  set_option sys g multicast_ttl
  set_option sys g multicast_loop
  set_option sys g multicast_if
  greet_targets o sys g g.client_targets
  send_greeting sys g g.multi_sockfd hello_multicast
      (record { sin_port = htons o 10000; sin_addr = group })
  cleanup g (pos 0)

pub with_targets : ByteOrder → System → ℕ → List Target → M (Unit {0})
unfolding serve_clients
with_targets o sys group targets = do
  multi ← ask sys opens
  serve_clients o sys group (record { client_targets = targets; multi_sockfd = multi })

-- main
unfoldable pub main : ByteOrder → System → ℕ → M (Unit {0})
unfolding open_targets with_targets unicast_ports
main o sys group = do
  targets ← open_targets sys (unicast_ports o) []
  with_targets o sys group targets
