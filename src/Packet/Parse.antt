-- ===== src/Packet/Parse.antt =====
-- parse_packet on a buffer whose first bytes are known, one step of the parser at a time.
use dirty_net.Prelude.{
  ℕ, ◌+◌, ◌*◌, ◌/◌, ◌%◌, ◌^◌, ◌≤◌, ◌<◌, ◌≡◌, ap, ◌∙◌, List, ◌∷◌, ◌++◌, arith, done, fault, length,
  take, drop, All,
}
use dirty_net.ByteOrder.{ByteOrder, big, IsByte, store32, load32, ntohl}
use dirty_net.ByteOrder.Laws.{four, ntohl-load32}
use dirty_net.Memory.{read_at}
use dirty_net.Memory.Laws.{read_at-done}
use dirty_net.Packet.{
  packet_of_msg, type_of_u32, complete_result, incomplete_result, parse_packet, parse_typed,
  parse_greeting, parse_payload,
}

-- The number that four bytes make up in network order.
abbrev pub net32 : ℕ → ℕ → ℕ → ℕ → ℕ
net32 a b c d = a * 16777216 + b * 65536 + c * 256 + d

net32_lem :
    (o : ByteOrder) (a b c d : ℕ)
    → All IsByte (four a b c d)
    → ntohl o (load32 o (four a b c d)) ≡ net32 a b c d
unfolding load32
net32_lem o a b c d h = ntohl-load32 o a b c d h

pub parse_short :
    (o : ByteOrder) (buffer : List ℕ)
    → length buffer < 4
    → parse_packet o buffer ≡ done incomplete_result
unfolding parse_packet
parse_short o buffer h = ground arith

-- Four bytes decide the branch of the switch.
pub parse_switch :
    (o : ByteOrder) (a b c d : ℕ) (rest : List ℕ)
    → All IsByte (four a b c d)
    → parse_packet o (a ∷ b ∷ c ∷ d ∷ rest)
      ≡ parse_typed o (a ∷ b ∷ c ∷ d ∷ rest) (type_of_u32 (net32 a b c d))
unfolding parse_packet
parse_switch o a b c d rest h =
    let buffer : List ℕ = a ∷ b ∷ c ∷ d ∷ rest in
    ground (arith, read_at-done buffer 0 4, net32_lem o a b c d)

pub greeting_short :
    (o : ByteOrder) (buffer : List ℕ)
    → length buffer < 8
    → parse_greeting o buffer ≡ done incomplete_result
unfolding parse_greeting
greeting_short o buffer h = ground arith

pub greeting_length :
    (o : ByteOrder) (a b c d w x y z : ℕ) (rest : List ℕ)
    → All IsByte (four w x y z)
    → parse_greeting o (a ∷ b ∷ c ∷ d ∷ w ∷ x ∷ y ∷ z ∷ rest)
      ≡ parse_payload (a ∷ b ∷ c ∷ d ∷ w ∷ x ∷ y ∷ z ∷ rest) (net32 w x y z)
unfolding parse_greeting
greeting_length o a b c d w x y z rest h =
    let buffer : List ℕ = a ∷ b ∷ c ∷ d ∷ w ∷ x ∷ y ∷ z ∷ rest in
    ground (arith, read_at-done buffer 4 4, net32_lem o w x y z)

-- A length that does not wrap: the packet is there, or it is waited for.
pub payload_waits :
    (buffer : List ℕ) (n : ℕ)
    → 8 + n < 2 ^ 32
    → length buffer < 8 + n
    → parse_payload buffer n ≡ done incomplete_result
unfolding parse_payload
payload_waits buffer n small short = ground arith

pub payload_completes :
    (buffer : List ℕ) (n : ℕ)
    → 8 + n < 2 ^ 32
    → 8 + n ≤ length buffer
    → parse_payload buffer n
      ≡ done (complete_result (packet_of_msg (take n (drop 8 buffer))) (8 + n))
unfolding parse_payload
payload_completes buffer n small enough = ground (arith, read_at-done buffer 8 n)

-- A length that wraps passes the test of the size, and the message is then read out of bounds.
pub payload_overruns :
    (buffer : List ℕ) (n : ℕ)
    → 2 ^ 32 ≤ 8 + n
    → n < 2 ^ 32
    → 8 ≤ length buffer
    → length buffer < 8 + n
    → parse_payload buffer n ≡ fault
unfolding parse_payload read_at
payload_overruns buffer n wraps word enough short = ground arith

-- A greeting's header and a length send the parser to the payload.
pub parse_sized :
    (o : ByteOrder) (n : ℕ) (rest : List ℕ)
    → n < 2 ^ 32
    → parse_packet o (store32 big 2 ++ (store32 big n ++ rest))
      ≡ parse_payload (store32 big 2 ++ (store32 big n ++ rest)) n
unfolding store32 type_of_u32 parse_typed
parse_sized o n rest h =
    let w : ℕ = n / 16777216 % 256 in
    let x : ℕ = n / 65536 % 256 in
    let y : ℕ = n / 256 % 256 in
    let z : ℕ = n % 256 in
    let e : net32 w x y z ≡ n = omega arith in
    let buffer : List ℕ = 0 ∷ 0 ∷ 0 ∷ 2 ∷ w ∷ x ∷ y ∷ z ∷ rest in
    parse_switch o 0 0 0 2 (w ∷ x ∷ y ∷ z ∷ rest) (omega arith)
    ∙ greeting_length o 0 0 0 2 w x y z rest (omega arith)
    ∙ ap (parse_payload buffer) e
