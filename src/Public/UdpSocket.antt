-- ===== src/Public/UdpSocket.antt =====
-- lib/dirtynet/udpsocket.hh: the public socket over the native one.
use dirty_net.Prelude.{ℕ, Bool, List}
use dirty_net.Prelude.Int.{ℤ}
use dirty_net.ByteOrder.{ByteOrder}
use dirty_net.Posix.Ip.{Expected, ok, unexpected}
use dirty_net.Posix.UdpSocket.{
  UdpError, UdpDatagram, World, Recvfrom, open_socket, open_result, bind_socket, bind_result,
  move_construct, destroy,
}
use dirty_net.Posix.UdpSocket
use dirty_net.Public.Endpoint.{PublicEndpoint, endpoint_from_native}

-- struct udp_datagram
pub record PublicDatagram : Type 0 where
  pub bytes : List ℕ
  pub sender : PublicEndpoint
  pub truncated : Bool

-- `return udp_socket(std::move(*mNative))`, and the end of mNative: the native object is moved into a public one,
-- and that one into the result.
wrap : Expected ℕ UdpError → World → World
wrap (ok i) w = destroy 1 (move_construct 0 (destroy 1 (move_construct 0 w)))
wrap (unexpected e) w = w

-- udp_socket::open and udp_socket::bind, with the results of the native ones
unfoldable pub public_open : ℤ → World → World
unfolding wrap
public_open fd w = wrap (open_result fd) (open_socket fd w)

unfoldable pub public_bind : ByteOrder → PublicEndpoint → ℤ → ℤ → World → World
unfolding wrap
public_bind o e fd bound w =
    wrap (bind_result fd bound) (bind_socket o e.native_endpoint fd bound w)

-- udp_socket::send_to
unfoldable pub public_send_to :
    ByteOrder → ℕ → PublicEndpoint → List ℕ → ℤ → World → World × Expected ℤ UdpError
public_send_to o i target bytes n w = UdpSocket.send_to o i target.native_endpoint bytes n w

wrap_datagram : Expected UdpDatagram UdpError → Expected PublicDatagram UdpError
wrap_datagram (ok d) =
    ok (record { bytes = d.bytes; sender = endpoint_from_native d.sender; truncated = d.truncated })
wrap_datagram (unexpected e) = unexpected e

-- udp_socket::receive
unfoldable pub public_receive : ℕ → Recvfrom → World → World × Expected PublicDatagram UdpError
unfolding wrap_datagram
public_receive i r w =
    let (after, result) = UdpSocket.receive i r w in (after, wrap_datagram result)
