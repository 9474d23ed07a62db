-- ===== src/Client.antt =====
-- The main function of sandbox/tcp-packet/posix/client/main.cc.
pub mod Transcript
pub mod Main
pub mod Polite
pub mod Awaits
pub mod Talks
mod Tests
use dirty_net.Prelude.{
  ℕ, zero, suc, ◌+◌, ◌*◌, Bool, true, false, not, List, [], ◌∷◌, ◌++◌, length, replicate, set,
  for_range, if◌then◌else◌,
}
use dirty_net.Prelude.Int.{ℤ, pos, negsuc, is_negative, is_zero}
use dirty_net.Packet.{Packet, PacketType, create_ping, create_msg}
use dirty_net.Session.{
  Session, Host, M, Exit, next, undefined, ◌>>=◌, ◌>>◌, pure, return_code, require, receive,
  collect_all, send, close, is_ok,
}

abbrev pub is_pong : PacketType → Bool
is_pong PacketType.pong = true
is_pong _ = false

-- The loop over allPackets that returns -1 at a packet that is no pong.
pub all_pongs : List Packet → M (Unit {0})
all_pongs [] = pure tt
all_pongs (p ∷ ps) = do require (is_pong p.hdr); all_pongs ps

-- allPackets[i]
unfoldable pub packet_at : List Packet → ℕ → M Packet
packet_at [] i s = undefined
packet_at (p ∷ ps) zero s = next p s
packet_at (p ∷ ps) (suc i) s = packet_at ps i s

abbrev pub hello_from_client : List ℕ
hello_from_client =
    b'H' ∷ b'e' ∷ b'l' ∷ b'l' ∷ b'o' ∷ 32 ∷ b'f' ∷ b'r' ∷ b'o' ∷ b'm' ∷ 32 ∷ b'c' ∷ b'l' ∷ b'i'
    ∷ b'e' ∷ b'n' ∷ b't' ∷ b'!' ∷ []

abbrev pub quit : List ℕ
quit = b'Q' ∷ b'U' ∷ b'I' ∷ b'T' ∷ []

-- builtMsg: 33 characters, each 16 times
unfoldable pub built_msg : List ℕ
built_msg =
    for_range 33 0 (λ i. for_range 16 0 (λ j msg. set msg (i * 16 + j) (b'0' + i)))
      (replicate (33 * 16) 0)

-- get_packets, which has to succeed, and the loop until there are `want` packets. The first time main tests
-- the result once more behind the loop, which has tested it.
unfoldable pub await_packets : Host → ℕ → M (List Packet)
await_packets h want = do
  result ← receive h
  require (is_ok result.status)
  collect_all h want result.packets

-- The session on a connected socket. The test of the types of the three small packets only prints.
unfoldable pub play : Host → ℤ → M (Unit {0})
unfolding all_pongs packet_at built_msg await_packets
play h fd = do
  _ ← send h fd create_ping
  pongs ← await_packets h 1
  all_pongs pongs
  _ ← send h fd (create_msg hello_from_client)
  small ← await_packets h 3
  _ ← packet_at small 0
  _ ← packet_at small 1
  _ ← packet_at small 2
  _ ← send h fd (create_msg built_msg)
  large ← await_packets h 3
  _ ← packet_at large 0
  _ ← packet_at large 1
  _ ← packet_at large 2
  _ ← send h fd (create_msg quit)
  close fd
  return_code (pos 0)

-- What socket() and connect() return.
pub record Startup : Type 0 where
  pub socket_result : ℤ
  pub connect_result : ℤ

-- main
unfoldable pub main : Host → Startup → M (Unit {0})
unfolding play
main h st =
    if is_negative st.socket_result
    then return_code st.socket_result
    else if not (is_zero st.connect_result)
    then return_code st.connect_result
    else play h st.socket_result
