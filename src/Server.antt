-- ===== src/Server.antt =====
-- The main function of sandbox/tcp-packet/posix/server/main.cc, phase by phase.
pub mod Phases
pub mod Transcript
pub mod Main
pub mod Polite
pub mod Awaits
pub mod Talks
mod Tests
use dirty_net.Prelude.{
  for_range, ℕ, zero, suc, ◌+◌, Bool, true, false, not, List, [], ◌∷◌, ◌++◌, Run, done, fault,
  stuck, length, replicate, set, ltb, if◌then◌else◌,
}
use dirty_net.Prelude
use dirty_net.Prelude.Int.{ℤ, pos, negsuc, is_negative, is_zero}
use dirty_net.Memory.{same_bytes}
use dirty_net.Packet.{Packet, PacketType, is_greeting, encode, create_ping, create_pong, create_msg}
use dirty_net.Session.{
  Session, Host, M, Exit, next, returns, undefined, unfinished, and_then, ◌>>=◌, ◌>>◌, pure,
  return_code, require, receive, collect_all, lift, write, send, close, is_ok,
}

abbrev pub is_ping : PacketType → Bool
is_ping PacketType.ping = true
is_ping _ = false

-- `if(allPackets.size() > 1) { return -1; }`, and allPackets[0]
first_packet : List Packet → M Packet
first_packet [] s = undefined
first_packet (p ∷ ps) s = next p s

-- Reading one packet, after the first call of get_packets.
await_one : Host → List Packet → M Packet
unfolding first_packet
await_one h packets = do
  all_packets ← collect_all h 1 packets
  require (not (ltb 1 (length all_packets)))
  first_packet all_packets

-- The first read checks what get_packets returned, the later ones leave that to the loop.
pub expect_ping : Host → M (Unit {0})
unfolding await_one
expect_ping h = do
  result ← receive h
  require (is_ok result.status)
  p ← await_one h result.packets
  require (is_ping p.hdr)

pub expect_greeting : Host → M (List ℕ)
unfolding await_one
expect_greeting h = do
  result ← receive h
  p ← await_one h result.packets
  require (is_greeting p.hdr)
  pure p.msg

-- A write whose result is compared with 0.
pub send_some : Host → ℤ → Packet → M (Unit {0})
send_some h fd p = do bytes_written ← send h fd p; require (not (is_zero bytes_written))

abbrev pub hello_world : List ℕ
hello_world = b'H' ∷ b'e' ∷ b'l' ∷ b'l' ∷ b'o' ∷ 32 ∷ b'W' ∷ b'o' ∷ b'r' ∷ b'l' ∷ b'd' ∷ b'!' ∷ []

abbrev pub quit : List ℕ
quit = b'Q' ∷ b'U' ∷ b'I' ∷ b'T' ∷ []

-- The three messages that are sent at once: msg.resize(n), and a loop that writes characters.
pub msg_100 : List ℕ
msg_100 = for_range 50 0 (λ i msg. set (set msg i (b'0' + i)) (50 + i) (b'0' + i)) (replicate 100 0)

pub msg_50 : List ℕ
msg_50 = for_range 50 0 (λ i msg. set msg 0 (b'0' + i)) (replicate 50 0)

pub msg_150 : List ℕ
msg_150 =
    for_range 50 0
      (λ i msg. set (set (set msg 0 (b'0' + i)) (50 + i) (b'0' + i)) (100 + i) (b'0' + i))
      (replicate 150 0)

-- fullPacketEncoded
pub full_packet_encoded : Host → Run (List ℕ)
full_packet_encoded h = Prelude.◌>>=◌ (encode h.byte_order (create_msg msg_100)) λ first.
    Prelude.◌>>=◌ (encode h.byte_order (create_msg msg_50)) λ second.
      Prelude.◌>>=◌ (encode h.byte_order (create_msg msg_150))
        λ third. done (first ++ (second ++ third))

pub send_full : Host → ℤ → M (Unit {0})
unfolding lift full_packet_encoded
send_full h fd = do
  bytes ← lift (full_packet_encoded h)
  bytes_written ← write h fd bytes
  require (not (is_zero bytes_written))

-- The session on an accepted connection. `listener` is the socket that accepted it.
pub serve : Host → ℤ → ℤ → M (Unit {0})
unfolding expect_ping expect_greeting send_some send_full
serve h connection listener = do
  expect_ping h
  _ ← send h connection create_pong
  _ ← expect_greeting h
  send_some h connection create_pong
  send_some h connection create_ping
  send_some h connection (create_msg hello_world)
  _ ← expect_greeting h
  send_full h connection
  msg ← expect_greeting h
  require (same_bytes msg quit)
  close connection
  close listener
  return_code (pos 0)

-- What the calls that set the server up return.
pub record Startup : Type 0 where
  pub socket_result : ℤ
  pub bind_result : ℤ
  pub listen_result : ℤ
  pub accept_result : ℤ

-- main
pub main : Host → Startup → M (Unit {0})
unfolding serve
main h st =
    if is_negative st.socket_result
    then return_code st.socket_result
    else if is_negative st.bind_result
    then return_code st.bind_result
    else if not (is_zero st.listen_result)
    then return_code st.listen_result
    else if is_negative st.accept_result
    then return_code st.accept_result
    else serve h st.accept_result st.socket_result
