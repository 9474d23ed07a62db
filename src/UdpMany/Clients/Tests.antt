-- ===== src/UdpMany/Clients/Tests.antt =====
-- The two clients at concrete inputs, and parsePort.
use dirty_net.Prelude.{
  ℕ, ◌<◌, ◌^◌, ◌≡◌, ◌≢◌, ◌↔◌, refl, List, [], ◌∷◌, replicate, length-replicate, none, some, All,
  arith,
}
use dirty_net.Prelude.Int.{pos}
use dirty_net.ByteOrder.{little, htons}
use dirty_net.Text.{to_string, c_str}
use dirty_net.Text.Laws.{value_from, IsDigit}
use dirty_net.Text.FromChars.{from_chars, scan, is_digit, in_range}
use dirty_net.Memory.{write_at}
use dirty_net.Stream.{ReadResult, failed, got}
use dirty_net.Sandbox.{System, opens, binds, receives, prints, closes, exits, undefined, terminated}
use dirty_net.UdpMany.ParsePort.{parse_port, parse_port_iff, parse_port-to_string}
use dirty_net.UdpMany.Clients.{unicast_main, multicast_main, any_address}
use dirty_net.Sandbox.Receive.{Sized}
use dirty_net.UdpMany.Clients.Laws.{MainEnds, unicast_calls, multicast_calls, clients-MainEnds}

-- "080", "9000x", and 2^16
leading_zero : parse_port little (b'0' ∷ b'8' ∷ b'0' ∷ []) ≡ some 0x5000
unfolding parse_port from_chars scan is_digit in_range htons
leading_zero = refl

trailing_letter : parse_port little (b'9' ∷ b'x' ∷ []) ≡ none
unfolding parse_port from_chars scan is_digit in_range
trailing_letter = refl

too_large : parse_port little (b'6' ∷ b'5' ∷ b'5' ∷ b'3' ∷ b'6' ∷ []) ≡ none
unfolding parse_port from_chars scan is_digit in_range
too_large = refl

abbrev eighty : List ℕ
eighty = b'8' ∷ b'0' ∷ []

parse_port_iff_example : (parse_port little eighty ≡ some (htons little 80)) ↔ (
    (eighty ≢ [])
    × All IsDigit eighty
    × (0 < value_from 0 eighty)
    × (value_from 0 eighty < 2 ^ 16)
    × (htons little 80 ≡ htons little (value_from 0 eighty)))
parse_port_iff_example = parse_port_iff little eighty (htons little 80)

printed_port : parse_port little (to_string 9000) ≡ some (htons little 9000)
printed_port = parse_port-to_string little 9000 (omega arith) (omega arith)

-- A system whose calls succeed, and which receives one message.
abbrev receiving : ReadResult → System
receiving r = record {
  result = λ t c. pos 5;
  input = λ t. r;
  sender = λ t. record { sin_port = 0; sin_addr = 0 };
}

abbrev argv : List (List ℕ)
argv = (b'c' ∷ []) ∷ (b'8' ∷ b'0' ∷ []) ∷ []

-- Bytes behind a NUL are not printed.
run_nul :
    unicast_main little (receiving (got (b'a' ∷ 0 ∷ b'b' ∷ []))) (replicate 1024 7) argv []
    ≡ exits (pos 0) (
        opens
        ∷ binds (pos 5) (any_address 0x5000)
        ∷ receives (pos 5) 1024
        ∷ prints (b'a' ∷ [])
        ∷ closes (pos 5)
        ∷ [])
unfolding unicast_main parse_port from_chars scan is_digit in_range htons terminated write_at c_str
run_nul = refl

run_failed : multicast_main little (receiving failed) (replicate 1024 7) argv [] ≡ undefined
unfolding multicast_main parse_port from_chars scan is_digit in_range htons terminated
run_failed = refl

one_byte-Sized : Sized (receiving (got (b'a' ∷ [])))
one_byte-Sized t bytes e = ground arith

clients-MainEnds_example :
    MainEnds little
      (receiving (got (b'a' ∷ [])))
      unicast_calls
      argv
      (unicast_main little (receiving (got (b'a' ∷ []))) (replicate 1024 7) argv [])
    × MainEnds little
        (receiving (got (b'a' ∷ [])))
        multicast_calls
        argv
        (multicast_main little (receiving (got (b'a' ∷ []))) (replicate 1024 7) argv [])
clients-MainEnds_example =
    clients-MainEnds little (receiving (got (b'a' ∷ []))) (replicate 1024 7) argv
      (length-replicate {A = ℕ} 1024 7) one_byte-Sized
