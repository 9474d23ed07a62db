-- ===== src/Public/Tests.antt =====
-- The public classes at concrete inputs.
use dirty_net.Prelude.{◌≡◌, ◌↔◌, refl, true, none, some, [], ◌∷◌, ◌++◌, replicate, arith}
use dirty_net.Prelude.Int.{pos}
use dirty_net.ByteOrder.{little}
use dirty_net.Posix.Ip.{Inet, Ipv4, v4, ok, eafnosupport}
use dirty_net.Posix.Ip
use dirty_net.Posix.Port
use dirty_net.Posix.Port.{port_of}
use dirty_net.Posix.Port.Laws.{port_of-IsPort}
use dirty_net.Posix.Endpoint.{SockaddrIn, in4, sockaddr_in_bytes}
use dirty_net.Posix.Endpoint
use dirty_net.Posix.Endpoint.Laws.{IsSockaddrIn}
use dirty_net.Public.Port.{PublicPort}
use dirty_net.Public.Endpoint.{public_endpoint, endpoint_to_string, public_endpoint_eq}
use dirty_net.Public.Value.{
  Ipv4Endpoint, not_cached, cached, EndpointValue, value_text, struct_of, endpoint_values,
}
use mathlib.Core.Equiv.{IsEquiv}
use mathlib.Core.Quot
use dirty_net.Public.Laws.{texts, texts-public_endpoint}

-- A stand-in for the system's conversions.
abbrev some_inet : Inet
some_inet = record {
  inet_pton = λ text. record { result = pos 0; address = 0; errno = eafnosupport };
  inet_ntop = λ a. b'x' ∷ [];
}

abbrev port_80 : PublicPort
port_80 = record { native_port = port_of little 80 }

two_texts :
    texts little some_inet 2
      (public_endpoint (record { native_ip = v4 (record { s_addr = 7 }) }) port_80)
    ≡ replicate 2 (
        Ip.to_string some_inet (v4 (record { s_addr = 7 }))
        ++ (b':' ∷ Port.to_string port_80.native_port))
two_texts =
    texts-public_endpoint little some_inet 2 (record { s_addr = 7 }) port_80
      (port_of-IsPort little 80 (omega arith))

abbrev client : SockaddrIn
client = record { sin_family = 2; sin_port = 7; sin_addr = 9; sin_zero = replicate 8 1 }

client-IsSockaddrIn : IsSockaddrIn client
client-IsSockaddrIn = record {
  family_lt = omega arith;
  port_lt = omega arith;
  addr_lt = omega arith;
  padding = refl;
}

-- The same address twice, of which one object has its text in the cache.
abbrev fresh : Ipv4Endpoint little some_inet
fresh = record {
  object = record { native_endpoint = in4 client; str_cache = none };
  struct = client;
  is_struct = refl;
  valid = client-IsSockaddrIn;
  coherent = not_cached refl;
}

abbrev printed : Ipv4Endpoint little some_inet
printed = record {
  object = record {
    native_endpoint = in4 client;
    str_cache = some (Endpoint.to_string little some_inet (in4 client));
  };
  struct = client;
  is_struct = refl;
  valid = client-IsSockaddrIn;
  coherent = cached refl;
}

endpoint_values_example :
    ((◌≡◌ {A = EndpointValue little some_inet} (Quot.mk fresh) (Quot.mk printed))
      ↔ (public_endpoint_eq little fresh.object printed.object ≡ true))
    × (value_text little some_inet (Quot.mk fresh)
        ≡ (endpoint_to_string little some_inet fresh.object).0)
    × ((endpoint_to_string little some_inet fresh.object).0
        ≡ Endpoint.to_string little some_inet fresh.object.native_endpoint)
    × IsEquiv (struct_of little some_inet)
endpoint_values_example = endpoint_values little some_inet fresh printed
