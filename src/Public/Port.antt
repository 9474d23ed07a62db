-- ===== src/Public/Port.antt =====
-- lib/dirtynet/port.hh
use Prim.Native.Nat.{Ordering}
use dirty_net.Prelude.{ℕ, Bool, List}
use dirty_net.ByteOrder.{ByteOrder}
use dirty_net.Posix.Port.{port_of, port_eq, port_compare}
use dirty_net.Posix.Port

-- class port
pub record PublicPort : Type 0 where
  pub native_port : Port.Port

-- port(uint16_t p)
unfoldable pub public_port : ByteOrder → ℕ → PublicPort
public_port o p = record { native_port = port_of o p }

-- port_native_access::from_native
abbrev pub port_from_native : ByteOrder → ℕ → PublicPort
port_from_native o p = record { native_port = Port.from_native o p }

-- port::to_string
abbrev pub port_to_string : PublicPort → List ℕ
port_to_string p = Port.to_string p.native_port

-- port::operator== and operator<=>
abbrev pub public_port_eq : PublicPort → PublicPort → Bool
public_port_eq p q = port_eq p.native_port q.native_port

abbrev pub public_port_compare : PublicPort → PublicPort → Ordering
public_port_compare p q = port_compare p.native_port q.native_port
