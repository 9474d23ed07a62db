-- ===== src/Posix/Ip.antt =====
-- lib/dirtynet/detail/posix/ip.hh: addresses. inet_pton and inet_ntop are the system's: they are the
-- members of an argument.
pub mod Laws
pub mod Parse
use dirty_net.Prelude.{ℕ, Bool, true, false, Option, none, some, List, [], ◌∷◌, ◌==◌, if◌then◌else◌}
use dirty_net.Prelude.Int.{ℤ, pos, negsuc}
use dirty_net.ByteOrder.{ByteOrder, little, big}
use dirty_net.Text.{c_str}
use Prim.Native.Nat.{compare, Ordering}

-- The errno values that the code tells apart.
pub data Errno : Type 0 where
  eafnosupport other : Errno

-- What inet_pton(AF_INET, text, &address) leaves: its return value, the address and errno.
pub record PtonResult : Type 0 where
  pub result : ℤ
  pub address : ℕ
  pub errno : Errno

-- The system's conversions for AF_INET. An address is the `s_addr` of an in_addr.
pub record Inet : Type 0 where
  pub inet_pton : List ℕ → PtonResult
  pub inet_ntop : ℕ → List ℕ

-- lib/dirtynet/error/ip.hh
pub data IpParseError : Type 0 where
  unsupported_address_family invalid_address unknown_failure : IpParseError

-- std::expected
pub data Expected (A E : Type 0) : Type 0 where
  ok : A → Expected A E
  unexpected : E → Expected A E

-- class ipv4 over in_addr
pub record Ipv4 : Type 0 where
  pub s_addr : ℕ

-- class ipv6: it has no member yet.
pub data Ipv6 : Type 0 where
  ipv6 : Ipv6

-- ipv6(internal_t)
abbrev pub ipv6_of_internal : List ℕ → Ipv6
ipv6_of_internal internal = ipv6

-- ipv4::any
abbrev pub ipv4_any : Ipv4
ipv4_any = record { s_addr = 0 }

-- ipv4::localhost
unfoldable pub ipv4_localhost : ByteOrder → Ipv4
ipv4_localhost little = record { s_addr = 0x0100007F }
ipv4_localhost big = record { s_addr = 0x7F000001 }

-- The error for a negative result, by errno.
errno_error : Errno → IpParseError
errno_error eafnosupport = unsupported_address_family
errno_error other = unknown_failure

pton_outcome : PtonResult → ℤ → Expected Ipv4 IpParseError
unfolding errno_error
pton_outcome r (pos n) =
    if n == 1
    then ok (record { s_addr = r.address })
    else if n == 0
    then unexpected invalid_address
    else unexpected (errno_error r.errno)
pton_outcome r (negsuc n) = unexpected (errno_error r.errno)

-- ipv4::from_ip_string
unfoldable pub ipv4_from_ip_string : Inet → List ℕ → Expected Ipv4 IpParseError
unfolding pton_outcome
ipv4_from_ip_string inet sv = let r = inet.inet_pton (c_str sv) in pton_outcome r r.result

-- ipv4::to_string
abbrev pub ipv4_to_string : Inet → Ipv4 → List ℕ
ipv4_to_string inet a = inet.inet_ntop a.s_addr

-- ipv4::operator== and operator<=>
abbrev pub ipv4_eq : Ipv4 → Ipv4 → Bool
ipv4_eq a b = a.s_addr == b.s_addr

abbrev pub ipv4_compare : Ipv4 → Ipv4 → Ordering
ipv4_compare a b = compare a.s_addr b.s_addr

-- ipv6::operator==
abbrev pub ipv6_eq : Ipv6 → Ipv6 → Bool
ipv6_eq a b = true

-- class ip: std::variant<ipv4, ipv6>
pub data Ip : Type 0 where
  v4 : Ipv4 → Ip
  v6 : Ipv6 → Ip

-- ip::from_ipv4_string
unfoldable pub from_ipv4_string : Inet → List ℕ → Expected Ip IpParseError
from_ipv4_string inet sv = elim (ipv4_from_ip_string inet sv) [
  | ok a ↦ ok (v4 a)
  | unexpected e ↦ unexpected e
]

-- ip::from_ip_string
unfoldable pub from_ip_string : Inet → List ℕ → Expected Ip IpParseError
from_ip_string inet sv = elim (ipv4_from_ip_string inet sv) [
  | ok a ↦ ok (v4 a)
  | unexpected e ↦ unexpected invalid_address
]

-- ip::any and ip::localhost
abbrev pub any : Ip
any = v4 ipv4_any

abbrev pub localhost : ByteOrder → Ip
localhost o = v4 (ipv4_localhost o)

abbrev pub unimplemented : List ℕ
unimplemented =
    b'u' ∷ b'n' ∷ b'i' ∷ b'm' ∷ b'p' ∷ b'l' ∷ b'e' ∷ b'm' ∷ b'e' ∷ b'n' ∷ b't' ∷ b'e' ∷ b'd' ∷ []

-- ip::to_string
unfoldable pub to_string : Inet → Ip → List ℕ
to_string inet (v4 a) = ipv4_to_string inet a
to_string inet (v6 a) = unimplemented

-- ip::is_ipv4, is_ipv6, get_ipv4 and get_ipv6
abbrev pub is_ipv4 : Ip → Bool
is_ipv4 (v4 a) = true
is_ipv4 (v6 a) = false

abbrev pub is_ipv6 : Ip → Bool
is_ipv6 (v4 a) = false
is_ipv6 (v6 a) = true

abbrev pub get_ipv4 : Ip → Option Ipv4
get_ipv4 (v4 a) = some a
get_ipv4 (v6 a) = none

abbrev pub get_ipv6 : Ip → Option Ipv6
get_ipv6 (v4 a) = none
get_ipv6 (v6 a) = some a

-- ip::operator==: the same alternative, with equal values
unfoldable pub ip_eq : Ip → Ip → Bool
ip_eq (v4 a) (v4 b) = ipv4_eq a b
ip_eq (v6 a) (v6 b) = ipv6_eq a b
ip_eq _ _ = false
