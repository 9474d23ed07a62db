-- ===== src/Posix/UdpSocket.antt =====
-- lib/dirtynet/detail/posix/udp_socket.hh: a socket that owns its descriptor. The calls to the system
-- are recorded, the last one first, with what they returned.
pub mod Ownership
mod Tests
use dirty_net.Prelude.{
  ℕ, zero, suc, ◌%◌, ◌^◌, Bool, true, false, not, Option, none, some, List, [], ◌∷◌, length, take,
  replicate, set, if◌then◌else◌,
}
use dirty_net.Prelude.Int.{ℤ, pos, negsuc, is_negative}
use dirty_net.ByteOrder.{ByteOrder}
use dirty_net.Posix.Ip.{Expected, ok, unexpected}
use dirty_net.Posix.Port.{Port, from_native}
use dirty_net.Posix.Endpoint.{Endpoint, SockaddrIn, in4, addr_info}

-- Of a send the descriptor, the bytes, the address and its length are kept.
pub data Call : Type 0 where
  socket_gave : ℤ → Call
  bind_gave : ℤ → List ℕ × ℕ → ℤ → Call
  closes : ℤ → Call
  sendto_gave : ℤ → List ℕ → List ℕ × ℕ → ℤ → Call
  recvfrom_gave : ℤ → ℕ → Call
  getsockname_gave : ℤ → Call

-- lib/dirtynet/error/udp.hh: udp_open_error, udp_bind_error, udp_send_error and udp_recv_error
pub data UdpError : Type 0 where
  error : UdpError

-- struct udp_datagram
pub record UdpDatagram : Type 0 where
  pub bytes : List ℕ
  pub sender : Endpoint
  pub truncated : Bool

-- The live objects, by their `_fd`, and the calls made.
pub record World : Type 0 where
  pub sockets : List ℤ
  pub calls : List Call

-- _fd of an object
unfoldable pub fd_at : List ℤ → ℕ → ℤ
fd_at [] i = negsuc 0
fd_at (fd ∷ fds) zero = fd
fd_at (fd ∷ fds) (suc i) = fd_at fds i

-- An object's end.
unfoldable pub erase : List ℤ → ℕ → List ℤ
erase [] i = []
erase (fd ∷ fds) zero = fds
erase (fd ∷ fds) (suc i) = fd ∷ erase fds i

-- `if(_fd >= 0) { close(_fd); }`
pub close_fd : ℤ → List Call → List Call
close_fd fd calls = if is_negative fd then calls else closes fd ∷ calls

-- udp_socket(udp_socket&& other), of the object at `i`
unfoldable pub move_construct : ℕ → World → World
unfolding fd_at
move_construct i w = record {
  sockets = fd_at w.sockets i ∷ set w.sockets i (negsuc 0);
  calls = w.calls;
}

-- operator=(udp_socket&& other): the object at `i` takes over from the object at `j`, which may be itself.
unfoldable pub move_assign : ℕ → ℕ → World → World
unfolding fd_at close_fd
move_assign i j w =
    let assigned : List ℤ = set w.sockets i (fd_at w.sockets j) in
    record { sockets = set assigned j (negsuc 0); calls = close_fd (fd_at w.sockets i) w.calls }

-- ~udp_socket()
unfoldable pub destroy : ℕ → World → World
unfolding fd_at erase close_fd
destroy i w = record { sockets = erase w.sockets i; calls = close_fd (fd_at w.sockets i) w.calls }

-- udp_socket::open, where socket() returns `fd`. The object is moved into the result.
unfoldable pub open_socket : ℤ → World → World
unfolding move_construct destroy
open_socket fd w =
    let called : World = record { sockets = w.sockets; calls = socket_gave fd ∷ w.calls } in
    if is_negative fd
    then called
    else destroy 1
        (move_construct 0 (record { sockets = fd ∷ called.sockets; calls = called.calls }))

-- What open and bind give: the object is the first of the world's.
unfoldable pub open_result : ℤ → Expected ℕ UdpError
open_result fd = if is_negative fd then unexpected error else ok 0

-- udp_socket::bind, where socket() returns `fd` and bind() `bound`. On every return `sock` is destroyed.
unfoldable pub bind_socket : ByteOrder → Endpoint → ℤ → ℤ → World → World
unfolding move_construct destroy
bind_socket o ep fd bound w =
    if is_negative fd
    then record { sockets = w.sockets; calls = socket_gave fd ∷ w.calls }
    else (let made : World = record {
      sockets = fd ∷ w.sockets;
      calls = bind_gave fd (addr_info o ep) bound ∷ (socket_gave fd ∷ w.calls);
    } in
        if is_negative bound then destroy 0 made else destroy 1 (move_construct 0 made))

unfoldable pub bind_result : ℤ → ℤ → Expected ℕ UdpError
bind_result fd bound =
    if is_negative fd
    then unexpected error
    else if is_negative bound
    then unexpected error
    else ok 0

-- udp_socket::send_to, where sendto() returns `n`
unfoldable pub send_to : ByteOrder → ℕ → Endpoint → List ℕ → ℤ → World → World × Expected ℤ UdpError
unfolding fd_at
send_to o i target bytes n w = (
  record {
    sockets = w.sockets;
    calls = sendto_gave (fd_at w.sockets i) bytes (addr_info o target) n ∷ w.calls;
  },
  if is_negative n then unexpected error else ok n,
)

-- What recvfrom() gives: a failure, or the bytes it has put into the buffer, and the sender.
pub data Recvfrom : Type 0 where
  recv_failed : Recvfrom
  recv_got : List ℕ → SockaddrIn → Recvfrom

abbrev pub max_ipv4_packet_size : ℕ
max_ipv4_packet_size = 65507

received : Recvfrom → Expected UdpDatagram UdpError
received recv_failed = unexpected error
received (recv_got bytes client) =
    ok (record { bytes = bytes; sender = in4 client; truncated = false })

-- udp_socket::receive
unfoldable pub receive : ℕ → Recvfrom → World → World × Expected UdpDatagram UdpError
unfolding fd_at received
receive i r w = if is_negative (fd_at w.sockets i) then (w, unexpected error) else (
  record {
    sockets = w.sockets;
    calls = recvfrom_gave (fd_at w.sockets i) max_ipv4_packet_size ∷ w.calls;
  },
  received r,
)

-- udp_socket::get_port, where getsockname() gives sin_port, or -1
unfoldable pub get_port : ByteOrder → ℕ → Option ℕ → World → World × Option Port
unfolding fd_at
get_port o i sin_port w = (
  record { sockets = w.sockets; calls = getsockname_gave (fd_at w.sockets i) ∷ w.calls },
  elim sin_port [ none ↦ none | some p ↦ some (from_native o p) ],
)

-- udp_socket::kill
abbrev pub kill : World → World × Bool
kill w = (w, true)
