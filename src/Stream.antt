-- ===== src/Stream.antt =====
-- get_packets, which sandbox/tcp-packet/posix/server/main.cc and .../client/main.cc both declare:
-- bytes read from a TCP stream are gathered and cut into packets.
pub mod Split
pub mod Loop
pub mod Chunks
pub mod Overrun
mod Tests
use dirty_net.Prelude.{
  ℕ, zero, suc, ◌+◌, none, some, List, [], ◌∷◌, ◌++◌, Run, done, stuck, ◌>>=◌, length,
}
use dirty_net.ByteOrder.{ByteOrder}
use dirty_net.Memory.{erase_front}
use dirty_net.Packet.{Packet, ParseStatus, ParseResult, complete, incomplete, parse_packet}

pub data ReadReturnStatus : Type 0 where
  ok_packets closed socket_error protocol_error : ReadReturnStatus

-- What read() gives: a negative value, or a count with that many bytes in the buffer. No bytes mean
-- that the peer has closed the connection.
pub data ReadResult : Type 0 where
  failed : ReadResult
  got : List ℕ → ReadResult

-- The pair that get_packets returns, and the vector that it changes.
pub record Received : Type 0 where
  pub status : ReadReturnStatus
  pub packets : List Packet
  pub unprocessed_bytes : List ℕ

abbrev pub received_ok : List Packet → List ℕ → Received
received_ok packets bytes = record {
  status = ok_packets;
  packets = packets;
  unprocessed_bytes = bytes;
}

-- The while loop, with fuel. The calls of the loop are made only where a packet was taken off.
pub parse_loop : ByteOrder → ℕ → List ℕ → List Packet → Run Received
parse_loop o fuel [] retval = done (received_ok retval [])
parse_loop o zero (b ∷ bs) retval = stuck
parse_loop o (suc fuel) (b ∷ bs) retval = do
  result ← parse_packet o (b ∷ bs)
  elim result.status [
    | incomplete ↦ done (received_ok retval (b ∷ bs))
    | ParseStatus.invalid ↦
        done (record { status = protocol_error; packets = []; unprocessed_bytes = b ∷ bs })
    | complete ↦ elim result.pkt [
      | none ↦ done (received_ok retval (b ∷ bs))
      | some p ↦ erase_front (b ∷ bs) result.bytes_consumed >>= λ rest.
          parse_loop o fuel rest (retval ++ (p ∷ []))
    ]
  ]

-- get_packets. Every round takes a byte at least, so as many rounds as there are bytes are enough.
unfoldable pub get_packets : ByteOrder → ReadResult → List ℕ → Run Received
unfolding parse_loop
get_packets o failed unprocessed_bytes =
    done (record { status = socket_error; packets = []; unprocessed_bytes = unprocessed_bytes })
get_packets o (got []) unprocessed_bytes =
    done (record { status = closed; packets = []; unprocessed_bytes = unprocessed_bytes })
get_packets o (got (b ∷ bs)) unprocessed_bytes =
    let bytes = unprocessed_bytes ++ (b ∷ bs) in parse_loop o (length bytes) bytes []
