-- ===== src/Session.antt =====
-- What the two programs of sandbox/tcp-packet/posix do with a connection: state, calls that read and
-- write, and the loops that collect packets. A run that ends early does so by main's `return`.
pub mod Ensures
pub mod Receive
pub mod Collect
pub mod Progress
pub mod Batch
pub mod Brings
pub mod Stalled
pub mod Awaits
pub mod Dialogue
use dirty_net.Prelude.{
  ℕ, zero, suc, Bool, true, false, List, [], ◌∷◌, ◌++◌, Run, done, fault, stuck, length, ltb,
  if◌then◌else◌,
}
use dirty_net.Prelude.Int.{ℤ, negsuc}
use dirty_net.ByteOrder.{ByteOrder}
use dirty_net.Packet.{Packet, encode}
use dirty_net.Stream.{ReadReturnStatus, ok_packets, ReadResult, got, Received, get_packets}

-- write(fd, bytes) and close(fd), in the order in which they are called.
pub data Event : Type 0 where
  writes : ℤ → List ℕ → Event
  closes : ℤ → Event

-- The answers that read() will give, incomingBuffer, and the calls made so far.
pub record Session : Type 0 where
  pub reads : List ReadResult
  pub unprocessed_bytes : List ℕ
  pub events : List Event

-- The machine under the program: its byte order, and what write() returns after the calls so far.
pub record Host : Type 0 where
  pub byte_order : ByteOrder
  pub write_result : List Event → List ℕ → ℤ

-- How a part of main ends: with a value, by a return of main, in undefined behaviour, or (which is no
-- behaviour of the program) for lack of fuel.
pub data Exit (A : Type 0) : Type 0 where
  next : A → Session → Exit A
  returns : ℤ → Session → Exit A
  undefined unfinished : Exit A

abbrev pub M : Type 0 → Type 0
M A = Session → Exit A

abbrev pub and_then : {A B : Type 0} → Exit A → (A → M B) → Exit B
and_then (next a s) k = k a s
and_then (returns c s) k = returns c s
and_then undefined k = undefined
and_then unfinished k = unfinished

infixl 5 ◌>>=◌ ◌>>◌
abbrev pub ◌>>=◌ : {A B : Type 0} → M A → (A → M B) → M B
◌>>=◌ m k s = and_then (m s) k

abbrev pub ◌>>◌ : {B : Type 0} → M (Unit {0}) → M B → M B
m >> k = m >>= λ _. k

abbrev pub pure : {A : Type 0} → A → M A
pure a s = next a s

abbrev pub return_code : {A : Type 0} → ℤ → M A
return_code c s = returns c s

-- `if(...) { return -1; }`, of the test's opposite
abbrev pub require : Bool → M (Unit {0})
require true = pure tt
require false = return_code (negsuc 0)

-- When the script is over the peer has closed the connection.
first_read : List ReadResult → ReadResult
first_read [] = got []
first_read (r ∷ rs) = r

later_reads : List ReadResult → List ReadResult
later_reads [] = []
later_reads (r ∷ rs) = rs

unfoldable pub deliver : Session → Run Received → Exit Received
deliver s (done r) = next r (record s { unprocessed_bytes = r.unprocessed_bytes })
deliver s fault = undefined
deliver s stuck = unfinished

-- result = get_packets(fd, buffer, incomingBuffer)
unfoldable pub receive : Host → M Received
unfolding first_read later_reads
receive h s =
    deliver (record s { reads = later_reads s.reads })
      (get_packets h.byte_order (first_read s.reads) s.unprocessed_bytes)

-- while(allPackets.size() < want) { get_packets; return -1 unless ok_packets; append the packets }
unfoldable pub collect : Host → ℕ → ℕ → List Packet → M (List Packet)
collect h zero want all s = if ltb (length all) want then unfinished else next all s
collect h (suc fuel) want all s =
    let more = and_then (receive h s) (λ r. elim r.status [
      | ok_packets ↦ collect h fuel want (all ++ r.packets)
      | _ ↦ return_code (negsuc 0)
    ]) in
    if ltb (length all) want then more else next all s

-- Each round that goes on has used up an answer of read().
unfoldable pub collect_all : Host → ℕ → List Packet → M (List Packet)
unfolding collect
collect_all h want all s = collect h (suc (length s.reads)) want all s

-- write(fd, bytes.data(), bytes.size())
unfoldable pub write : Host → ℤ → List ℕ → M ℤ
write h fd bytes s =
    next (h.write_result s.events bytes) (record s { events = s.events ++ (writes fd bytes ∷ []) })

-- A part that only computes, within main.
unfoldable pub lift : {A : Type 0} → Run A → M A
lift (done a) s = next a s
lift fault s = undefined
lift stuck s = unfinished

-- encodedData = packet.encode(); write(fd, encodedData.data(), encodedData.size())
unfoldable pub send : Host → ℤ → Packet → M ℤ
unfolding write lift
send h fd p = lift (encode h.byte_order p) >>= write h fd

unfoldable pub close : ℤ → M (Unit {0})
close fd s = next tt (record s { events = s.events ++ (closes fd ∷ []) })

abbrev pub is_ok : ReadReturnStatus → Bool
is_ok ok_packets = true
is_ok _ = false
