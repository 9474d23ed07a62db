-- ===== src/Packet/RoundTrip.antt =====
-- parse_packet reads back what encode writes.
use dirty_net.Prelude.{
  ℕ, ◌+◌, ◌^◌, ◌≤◌, ◌<◌, ◌≡◌, ap, ◌∙◌, List, ◌++◌, arith, done, ◌>>=◌, length, length-append,
  take-length_append,
}
use dirty_net.ByteOrder.{ByteOrder, big, store32}
use dirty_net.Packet.{
  packet_of_msg, type_of_u32, complete_result, parse_packet, parse_typed, encode,
}
use dirty_net.Packet.Shape.{
  Message, ping, pong, greeting, Fits, packet_of, wire, encode-wire, length-wire_greeting,
}
use dirty_net.Packet.Parse.{parse_switch, parse_sized, payload_completes}

-- A greeting's bytes and what follows: the length, then the payload, then the rest.
parse_greeting_lem :
    (o : ByteOrder) (m rest : List ℕ)
    → 8 + length m < 2 ^ 32
    → parse_packet o (wire (greeting m) ++ rest)
      ≡ done (complete_result (packet_of_msg m) (8 + length m))
unfolding wire store32
parse_greeting_lem o m rest h =
    let n : ℕ = length m in
    let buffer : List ℕ = store32 big 2 ++ (store32 big n ++ (m ++ rest)) in
    let fits : 8 + n ≤ length buffer = omega (arith, length-append m rest) in
    parse_sized o n (m ++ rest) (omega arith)
    ∙ payload_completes buffer n h fits
    ∙ ap (λ t. done (complete_result (packet_of_msg t) (8 + n))) (take-length_append m rest)

-- On every host, and whatever bytes follow, the wire form of a message parses to its packet and
-- takes up exactly the bytes of that form.
pub parse-wire :
    (o : ByteOrder) (m : Message) (rest : List ℕ)
    → Fits m
    → parse_packet o (wire m ++ rest) ≡ done (complete_result (packet_of m) (length (wire m)))
unfolding packet_of
parse-wire o ping rest h =
    unfold wire store32 type_of_u32 parse_typed in parse_switch o 0 0 0 0 rest (omega arith)
parse-wire o pong rest h =
    unfold wire store32 type_of_u32 parse_typed in parse_switch o 0 0 0 1 rest (omega arith)
parse-wire o (greeting m) rest h = rw (length-wire_greeting m) (parse_greeting_lem o m rest h.0)

-- Sender and receiver may be hosts of different byte orders: what encode writes on one, with any
-- bytes behind it, parse_packet reads on the other as the same packet, and it consumes the encoding.
pub parse-encode :
    (sender receiver : ByteOrder) (m : Message) (rest : List ℕ)
    → Fits m
    → (encode sender (packet_of m) >>= λ bytes. parse_packet receiver (bytes ++ rest))
      ≡ done (complete_result (packet_of m) (length (wire m)))
parse-encode sender receiver m rest h = rw (encode-wire sender m h) (parse-wire receiver m rest h)
