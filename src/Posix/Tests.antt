-- ===== src/Posix/Tests.antt =====
-- Ports, addresses and endpoints at concrete inputs.
use dirty_net.Prelude.{◌≡◌, ◌↔◌, refl, true, inl, [], ◌∷◌, done, arith, length, replicate}
use dirty_net.Prelude.Int.{pos}
use dirty_net.ByteOrder.{little, htons}
use dirty_net.Text.{c_str, digits}
use dirty_net.Text
use dirty_net.Posix.Port.{Port, port_of, from_native, posix, port_eq, port_compare}
use dirty_net.Posix.Port
use dirty_net.Posix.Port.Laws.{IsPort, port_of-IsPort, from_native-posix, port_eq_iff}
use dirty_net.Posix.Ip.{
  Inet, eafnosupport, Ipv4, v4, v6, ipv6, ok, from_ip_string, from_ipv4_string,
}
use dirty_net.Posix.Ip.Parse.{InetLaws, parsers_agree, parse-nul}
use dirty_net.Posix.Endpoint.{
  in4, SockaddrIn, zero_in6, endpoint_of, get_ip, get_port, from_socket, addr_info, endpoint_eq,
}
use dirty_net.Posix.Endpoint.Laws.{
  IsSockaddrIn, get_ip-endpoint_of, from_socket-addr_info, endpoint_eq_iff, endpoint_eq-remade,
}

-- 1337 is 0x0539, and its network order read by a little-endian host is 0x3905.
port_1337 : posix (port_of little 1337) ≡ 0x3905
unfolding posix port_of htons
port_1337 = refl

port_text : Port.to_string (port_of little 9090) ≡ b'9' ∷ b'0' ∷ b'9' ∷ b'0' ∷ []
unfolding Port.to_string Text.to_string port_of
port_text = refl

p1337-IsPort : IsPort little (port_of little 1337)
p1337-IsPort = port_of-IsPort little 1337 (omega arith)

p80-IsPort : IsPort little (port_of little 80)
p80-IsPort = port_of-IsPort little 80 (omega arith)

port_back : from_native little (posix (port_of little 1337)) ≡ port_of little 1337
port_back = (from_native-posix little (port_of little 1337) 0x3905 p1337-IsPort (omega arith)).0

equal_ports :
    (port_eq (port_of little 1337) (port_of little 80) ≡ true)
    ↔ (port_of little 1337 ≡ port_of little 80)
equal_ports =
    (port_eq_iff little (port_of little 1337) (port_of little 80) p1337-IsPort p80-IsPort).0

-- A system that writes an address as so many letters.
abbrev letters : Inet
letters = record {
  inet_pton = λ s. record { result = pos 1; address = length s; errno = eafnosupport };
  inet_ntop = λ a. replicate a b'x';
}

letters-InetLaws : InetLaws letters
letters-InetLaws = record { answers = λ s. inl refl }

abbrev five : Ipv4
five = record { s_addr = 5 }

parsers_agree_example :
    (from_ip_string letters (b'x' ∷ []) ≡ ok (v4 five))
    ↔ (from_ipv4_string letters (b'x' ∷ []) ≡ ok (v4 five))
parsers_agree_example = (parsers_agree letters (b'x' ∷ []) letters-InetLaws).0 (v4 five)

behind_nul : from_ip_string letters (b'x' ∷ 0 ∷ 9 ∷ []) ≡ from_ip_string letters (b'x' ∷ [])
behind_nul = (parse-nul letters (b'x' ∷ []) (9 ∷ []) ((λ e. cc), tt)).0

parts_back : get_port little (endpoint_of (v4 five) (port_of little 1337)) ≡ port_of little 1337
parts_back = (get_ip-endpoint_of little five (port_of little 1337) p1337-IsPort).1

abbrev stored : SockaddrIn
stored = record {
  sin_family = 2;
  sin_port = 0x3905;
  sin_addr = 0x0100007F;
  sin_zero = replicate 8 7;
}

stored-IsSockaddrIn : IsSockaddrIn stored
stored-IsSockaddrIn = record {
  family_lt = omega arith;
  port_lt = omega arith;
  addr_lt = omega arith;
  padding = refl;
}

from_socket-addr_info_example :
    from_socket little (addr_info little (in4 stored)).0 (addr_info little (in4 stored)).1
    ≡ done (ok (in4 stored))
from_socket-addr_info_example = (from_socket-addr_info little stored zero_in6 stored-IsSockaddrIn).0

endpoint_eq_iff_example :
    endpoint_eq little
      (endpoint_of (v6 ipv6) (port_of little 80))
      (endpoint_of (v6 ipv6) (port_of little 1337))
    ≡ true
endpoint_eq_iff_example =
    (endpoint_eq_iff little five five ipv6 ipv6 (port_of little 80) (port_of little 1337)
      (omega arith) (omega arith) p80-IsPort p1337-IsPort).2

padded_endpoint :
    (endpoint_eq little
        (in4 stored)
        (endpoint_of (get_ip (in4 stored)) (get_port little (in4 stored)))
      ≡ true)
    ↔ ((stored.sin_family ≡ 2) × (stored.sin_zero ≡ replicate 8 0))
padded_endpoint = endpoint_eq-remade little stored stored-IsSockaddrIn
