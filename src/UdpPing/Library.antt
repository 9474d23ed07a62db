-- ===== src/UdpPing/Library.antt =====
-- sandbox/udp-ping/dirtynet: client/main.cc and server/main.cc, over the public classes of the library.
pub mod Laws
pub mod Exchange
mod Tests
use dirty_net.Prelude.{ℕ, List, [], ◌∷◌}
use dirty_net.Prelude.Int.{ℤ, pos, negsuc}
use dirty_net.ByteOrder.{ByteOrder}
use dirty_net.Posix.Ip.{Expected, ok, unexpected}
use dirty_net.Posix.UdpSocket.{UdpError, World, Recvfrom, destroy, open_result, bind_result}
use dirty_net.Public.Port.{public_port}
use dirty_net.Public.Ip.{public_any, public_localhost}
use dirty_net.Public.Endpoint.{PublicEndpoint, public_endpoint}
use dirty_net.Public.UdpSocket.{
  PublicDatagram, public_open, public_bind, public_send_to, public_receive,
}
use dirty_net.UdpPing.{client_greeting, server_response}

-- What main returns, the world behind the destructor of its socket `i`, and what it has printed of a message.
pub record Ended : Type 0 where
  pub world : World
  pub code : ℤ
  pub printed : List (List ℕ)

abbrev pub leave : ℕ → ℤ → List (List ℕ) → World → Ended
leave i c texts w = record { world = destroy i w; code = c; printed = texts }

abbrev pub code_of : {E : Type 0} → Expected ℤ E → ℤ
code_of (ok n) = pos 0
code_of (unexpected e) = negsuc 0

-- server/main.cc, where socket() returns `fd`, bind() `bound`, recvfrom() `r` and sendto() `n`
pub answer : ByteOrder → ℕ → ℤ → World × Expected PublicDatagram UdpError → Ended
answer o i n (w, unexpected e) = leave i (negsuc 0) [] w
answer o i n (w, ok d) =
    let (after, sent) = public_send_to o i d.sender server_response n w in
    leave i (code_of sent) (d.bytes ∷ []) after

pub serve : ByteOrder → Recvfrom → ℤ → Expected ℕ UdpError → World → Ended
unfolding answer
serve o r n (ok i) w = answer o i n (public_receive i r w)
serve o r n (unexpected e) w = record { world = w; code = negsuc 0; printed = [] }

abbrev pub server_endpoint : ByteOrder → PublicEndpoint
server_endpoint o = public_endpoint public_any (public_port o 8090)

unfoldable pub server_main : ByteOrder → ℤ → ℤ → Recvfrom → ℤ → World → Ended
unfolding serve
server_main o fd bound r n w =
    serve o r n (bind_result fd bound) (public_bind o (server_endpoint o) fd bound w)

-- client/main.cc, where socket() returns `fd`, sendto() `n` and recvfrom() `r`
pub print_answer : ℕ → World × Expected PublicDatagram UdpError → Ended
print_answer i (w, unexpected e) = leave i (negsuc 0) [] w
print_answer i (w, ok d) = leave i (pos 0) (d.bytes ∷ []) w

abbrev pub local_endpoint : ByteOrder → PublicEndpoint
local_endpoint o = public_endpoint (public_localhost o) (public_port o 8090)

pub await_answer : ℕ → Recvfrom → World × Expected ℤ UdpError → Ended
unfolding print_answer
await_answer i r (w, unexpected e) = leave i (negsuc 0) [] w
await_answer i r (w, ok n) = print_answer i (public_receive i r w)

pub greet : ByteOrder → ℤ → Recvfrom → Expected ℕ UdpError → World → Ended
unfolding await_answer
greet o n r (ok i) w = await_answer i r (public_send_to o i (local_endpoint o) client_greeting n w)
greet o n r (unexpected e) w = record { world = w; code = negsuc 0; printed = [] }

unfoldable pub client_main : ByteOrder → ℤ → ℤ → Recvfrom → World → Ended
unfolding greet
client_main o fd n r w = greet o n r (open_result fd) (public_open fd w)
