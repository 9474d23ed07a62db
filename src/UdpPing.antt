-- ===== src/UdpPing.antt =====
-- sandbox/udp-ping: a client that greets, and a server that answers; once over the system's calls, and once over
-- the library.
pub mod Posix
pub mod Library
pub mod Agree
use dirty_net.Prelude.{ℕ, List, [], ◌∷◌}

abbrev pub client_greeting : List ℕ
client_greeting =
    b'H' ∷ b'e' ∷ b'l' ∷ b'l' ∷ b'o' ∷ 32 ∷ b'f' ∷ b'r' ∷ b'o' ∷ b'm' ∷ 32 ∷ b'c' ∷ b'l' ∷ b'i'
    ∷ b'e' ∷ b'n' ∷ b't' ∷ []

abbrev pub server_response : List ℕ
server_response =
    b'h' ∷ b'e' ∷ b'l' ∷ b'l' ∷ b'o' ∷ 32 ∷ b'f' ∷ b'r' ∷ b'o' ∷ b'm' ∷ 32 ∷ b's' ∷ b'e' ∷ b'r'
    ∷ b'v' ∷ b'e' ∷ b'r' ∷ []
