-- ===== src/Posix/Port.antt =====
-- lib/dirtynet/detail/posix/port.hh: a port in both byte orders.
pub mod Laws
use Prim.Native.Nat.{compare, Ordering}
use dirty_net.Prelude.{ℕ, Bool, List, ◌==◌}
use dirty_net.ByteOrder.{ByteOrder, htons, ntohs}
use dirty_net.Text

-- `_port` is in network order, `_local` in the host's.
pub record Port : Type 0 where
  pub native : ℕ
  pub local : ℕ

-- port(uint16_t p)
unfoldable pub port_of : ByteOrder → ℕ → Port
port_of o p = record { native = htons o p; local = p }

-- port::from_native
unfoldable pub from_native : ByteOrder → ℕ → Port
from_native o p = record { native = p; local = ntohs o p }

-- port::to_string
unfoldable pub to_string : Port → List ℕ
to_string p = Text.to_string p.local

-- port::posix
unfoldable pub posix : Port → ℕ
posix p = p.native

-- operator==
unfoldable pub port_eq : Port → Port → Bool
port_eq p q = p.local == q.local

-- operator<=>
unfoldable pub port_compare : Port → Port → Ordering
port_compare p q = compare p.local q.local
