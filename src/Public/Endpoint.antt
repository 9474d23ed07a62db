-- ===== src/Public/Endpoint.antt =====
-- lib/dirtynet/endpoint.hh
use dirty_net.Prelude.{ℕ, Bool, Option, none, some, List}
use dirty_net.ByteOrder.{ByteOrder}
use dirty_net.Posix.Ip.{Inet}
use dirty_net.Posix.Endpoint.{endpoint_of, endpoint_eq}
use dirty_net.Posix.Endpoint
use dirty_net.Public.Port.{PublicPort}
use dirty_net.Public.Ip.{PublicIp}

-- class endpoint: `_strCache` is mutable.
pub record PublicEndpoint : Type 0 where
  pub native_endpoint : Endpoint.Endpoint
  pub str_cache : Option (List ℕ)

-- endpoint(const ip& i, const port& p)
unfoldable pub public_endpoint : PublicIp → PublicPort → PublicEndpoint
public_endpoint i p = record {
  native_endpoint = endpoint_of i.native_ip p.native_port;
  str_cache = none;
}

-- endpoint_native_access::from_native
abbrev pub endpoint_from_native : Endpoint.Endpoint → PublicEndpoint
endpoint_from_native e = record { native_endpoint = e; str_cache = none }

-- endpoint::to_string: the text, and the object with its cache filled
unfoldable pub endpoint_to_string : ByteOrder → Inet → PublicEndpoint → List ℕ × PublicEndpoint
endpoint_to_string o inet e = elim e.str_cache [
  | none ↦
      let text = Endpoint.to_string o inet e.native_endpoint in
      (text, record { native_endpoint = e.native_endpoint; str_cache = some text })
  | some text ↦ (text, e)
]

-- endpoint::operator==
unfoldable pub public_endpoint_eq : ByteOrder → PublicEndpoint → PublicEndpoint → Bool
public_endpoint_eq o a b = endpoint_eq o a.native_endpoint b.native_endpoint
