-- ===== src/Legacy.antt =====
-- The former library, archive/legacy-dirtynet/core.
pub mod Util
pub mod Ip
pub mod Endpoint
pub mod VectorView
pub mod SocketFd
pub mod Udp
use dirty_net.Prelude.{ℕ, List}

-- A std::string_view: its text, and what stands behind it in memory.
pub record View : Type 0 where
  pub text : List ℕ
  pub behind : List ℕ
