-- ===== src/Public/Ip.antt =====
-- lib/dirtynet/ip.hh
use dirty_net.Prelude.{ℕ, Bool, List}
use dirty_net.ByteOrder.{ByteOrder}
use dirty_net.Posix.Ip.{Inet, IpParseError, Expected, ok, unexpected, v4, ip_eq}
use dirty_net.Posix.Ip

-- class ip
pub record PublicIp : Type 0 where
  pub native_ip : Ip.Ip

-- ip::from_ipv4_string
unfoldable pub public_from_ipv4_string : Inet → List ℕ → Expected PublicIp IpParseError
public_from_ipv4_string inet sv = elim (Ip.from_ipv4_string inet sv) [
  | ok a ↦ ok (record { native_ip = a })
  | unexpected e ↦ unexpected e
]

-- ip::localhost and ip::any
abbrev pub public_localhost : ByteOrder → PublicIp
public_localhost o = record { native_ip = Ip.localhost o }

abbrev pub public_any : PublicIp
public_any = record { native_ip = Ip.any }

-- ip_native_access::from_native
abbrev pub ip_from_native : ℕ → PublicIp
ip_from_native internal = record { native_ip = v4 (record { s_addr = internal }) }

-- ip::operator==
abbrev pub public_ip_eq : PublicIp → PublicIp → Bool
public_ip_eq a b = ip_eq b.native_ip a.native_ip

-- ip::to_string
abbrev pub ip_to_string : Inet → PublicIp → List ℕ
ip_to_string inet a = Ip.to_string inet a.native_ip
