-- ===== src/ByteOrder.antt =====
-- Numbers in memory: the two byte orders of a host (the `__BYTE_ORDER__` of
-- lib/dirtynet/detail/posix/ip.hh), and what the sources use of <arpa/inet.h>: htons, ntohs, htonl
-- and ntohl, which hold a number so that its bytes in memory stand in network order.
pub mod Laws
use dirty_net.Prelude.{ℕ, zero, suc, ◌+◌, ◌*◌, ◌/◌, ◌%◌, ◌^◌, ◌<◌, List, [], ◌∷◌, arith}

pub data ByteOrder : Type 0 where
  little big : ByteOrder

-- A byte of memory, read as an unsigned number.
abbrev pub IsByte : ℕ → Type 0
IsByte b = b < 256

-- The bytes of a uint16_t object, as memcpy sees them.
unfoldable pub store16 : ByteOrder → ℕ → List ℕ
store16 little v = (v % 256) ∷ (v / 256 % 256) ∷ []
store16 big v = (v / 256 % 256) ∷ (v % 256) ∷ []

-- The value of the uint16_t object that the first two bytes make up.
unfoldable pub load16 : ByteOrder → List ℕ → ℕ
load16 little (a ∷ b ∷ _) = a + b * 256
load16 big (a ∷ b ∷ _) = a * 256 + b
load16 _ _ = 0

-- The bytes of a uint32_t object.
unfoldable pub store32 : ByteOrder → ℕ → List ℕ
store32 little v = (v % 256) ∷ (v / 256 % 256) ∷ (v / 65536 % 256) ∷ (v / 16777216 % 256) ∷ []
store32 big v = (v / 16777216 % 256) ∷ (v / 65536 % 256) ∷ (v / 256 % 256) ∷ (v % 256) ∷ []

unfoldable pub load32 : ByteOrder → List ℕ → ℕ
load32 little (a ∷ b ∷ c ∷ d ∷ _) = a + b * 256 + c * 65536 + d * 16777216
load32 big (a ∷ b ∷ c ∷ d ∷ _) = a * 16777216 + b * 65536 + c * 256 + d
load32 _ _ = 0

unfoldable pub htons : ByteOrder → ℕ → ℕ
unfolding load16 store16
htons o v = load16 o (store16 big v)

unfoldable pub ntohs : ByteOrder → ℕ → ℕ
unfolding load16 store16
ntohs o v = load16 big (store16 o v)

unfoldable pub htonl : ByteOrder → ℕ → ℕ
unfolding load32 store32
htonl o v = load32 o (store32 big v)

unfoldable pub ntohl : ByteOrder → ℕ → ℕ
unfolding load32 store32
ntohl o v = load32 big (store32 o v)
