-- ===== src/Posix/Endpoint.antt =====
-- lib/dirtynet/detail/posix/endpoint.hh: an address and a port as the system's sockaddr. The layout
-- of sockaddr_in and sockaddr_in6 in memory is Linux's.
pub mod Laws
use dirty_net.Prelude.{
  ℕ, Bool, true, false, not, ◌&&◌, List, [], ◌∷◌, ◌++◌, Run, done, ◌>>=◌, take, drop, replicate,
  ◌==◌, if◌then◌else◌,
}
use dirty_net.ByteOrder.{ByteOrder, store16, load16, store32, load32}
use dirty_net.Memory.{read_at, same_bytes}
use dirty_net.Posix.Ip.{Inet, Ip, Ipv4, v4, v6, ipv6_of_internal, Expected, ok, unexpected}
use dirty_net.Posix.Ip
use dirty_net.Posix.Port.{Port}
use dirty_net.Posix.Port

abbrev pub af_inet : ℕ
af_inet = 2

-- sin_port and sin_addr.s_addr hold network order; sin_zero is padding.
pub record SockaddrIn : Type 0 where
  pub sin_family : ℕ
  pub sin_port : ℕ
  pub sin_addr : ℕ
  pub sin_zero : List ℕ

pub record SockaddrIn6 : Type 0 where
  pub sin6_family : ℕ
  pub sin6_port : ℕ
  pub sin6_flowinfo : ℕ
  pub sin6_addr : List ℕ
  pub sin6_scope_id : ℕ

-- class endpoint: std::variant<sockaddr_in, sockaddr_in6>
pub data Endpoint : Type 0 where
  in4 : SockaddrIn → Endpoint
  in6 : SockaddrIn6 → Endpoint

-- sizeof(sockaddr_in) and sizeof(sockaddr_in6)
abbrev pub sockaddr_v4_l : ℕ
sockaddr_v4_l = 16

abbrev pub sockaddr_v6_l : ℕ
sockaddr_v6_l = 28

-- lib/dirtynet/error/endpoint.hh
pub data EndpointError : Type 0 where
  unsupported_address_type invalid_length malformed_address_data : EndpointError

-- The bytes of the two structs in memory, and the struct that sixteen bytes make up.
unfoldable pub sockaddr_in_bytes : ByteOrder → SockaddrIn → List ℕ
sockaddr_in_bytes o a =
    store16 o a.sin_family ++ (store16 o a.sin_port ++ (store32 o a.sin_addr ++ a.sin_zero))

unfoldable pub sockaddr_in6_bytes : ByteOrder → SockaddrIn6 → List ℕ
sockaddr_in6_bytes o a =
    store16 o a.sin6_family
    ++ (store16 o a.sin6_port
        ++ (store32 o a.sin6_flowinfo ++ (a.sin6_addr ++ store32 o a.sin6_scope_id)))

unfoldable pub sockaddr_in_of_bytes : ByteOrder → List ℕ → SockaddrIn
sockaddr_in_of_bytes o bytes = record {
  sin_family = load16 o bytes;
  sin_port = load16 o (drop 2 bytes);
  sin_addr = load32 o (drop 4 bytes);
  sin_zero = drop 8 bytes;
}

-- endpoint::from_socket: `addr` is the memory behind the pointer.
unfoldable pub from_socket : ByteOrder → List ℕ → ℕ → Run (Expected Endpoint EndpointError)
from_socket o addr len =
    if len == sockaddr_v4_l
    then (do bytes ← read_at addr 0 sockaddr_v4_l; done (ok (in4 (sockaddr_in_of_bytes o bytes))))
    else done (unexpected unsupported_address_type)

-- A value-initialised sockaddr_in6
abbrev pub zero_in6 : SockaddrIn6
zero_in6 = record {
  sin6_family = 0;
  sin6_port = 0;
  sin6_flowinfo = 0;
  sin6_addr = replicate 16 0;
  sin6_scope_id = 0;
}

-- endpoint(ip, port). For IPv6 nothing is filled in yet.
unfoldable pub endpoint_of : Ip → Port → Endpoint
endpoint_of (v4 a) p = in4 (record {
  sin_family = af_inet;
  sin_port = Port.posix p;
  sin_addr = a.s_addr;
  sin_zero = replicate 8 0;
})
endpoint_of (v6 a) p = in6 zero_in6

-- endpoint::get_ip
unfoldable pub get_ip : Endpoint → Ip
get_ip (in4 a) = v4 (record { s_addr = a.sin_addr })
get_ip (in6 a) = v6 (ipv6_of_internal a.sin6_addr)

-- endpoint::get_port
unfoldable pub get_port : ByteOrder → Endpoint → Port
get_port o (in4 a) = Port.from_native o a.sin_port
get_port o (in6 a) = Port.from_native o a.sin6_port

-- endpoint::to_string
unfoldable pub to_string : ByteOrder → Inet → Endpoint → List ℕ
to_string o inet e = Ip.to_string inet (get_ip e) ++ (b':' ∷ Port.to_string (get_port o e))

-- endpoint::addr_info: the memory of the active struct, and its size.
unfoldable pub addr_info : ByteOrder → Endpoint → List ℕ × ℕ
addr_info o (in4 a) = (sockaddr_in_bytes o a, sockaddr_v4_l)
addr_info o (in6 a) = (sockaddr_in6_bytes o a, sockaddr_v6_l)

-- endpoint::operator==
unfoldable pub endpoint_eq : ByteOrder → Endpoint → Endpoint → Bool
endpoint_eq o a b =
    let (local_addr, local_len) = addr_info o a in
    let (other_addr, other_len) = addr_info o b in
    if not (local_len == other_len)
    then false
    else same_bytes (take local_len local_addr) (take local_len other_addr)
