-- ===== src/Packet/Shape.antt =====
-- The wire format of sandbox/tcp-packet, described apart from the code, and what encode writes.
use dirty_net.Prelude.{
  ℕ, suc, ◌+◌, ◌-◌, ◌%◌, ◌^◌, ◌<◌, ◌≡◌, refl, List, [], ◌∷◌, ◌++◌, arith, done, ◌>>=◌, length,
  replicate, length-replicate, drop_all, append-nil, All, All-append,
}
use dirty_net.ByteOrder.{ByteOrder, big, IsByte, store32}
use dirty_net.ByteOrder.Laws.{store32-htonl, store32-All}
use dirty_net.Memory.{write_at, resize}
use dirty_net.Memory.Laws.{write_at-done}
use dirty_net.Packet.{
  Packet, PacketType, packet_of_type, packet_of_msg, encode, encode_payload, u32_of_type,
}

-- What the two programs say to one another.
pub data Message : Type 0 where
  ping pong : Message
  greeting : List ℕ → Message

unfoldable pub packet_of : Message → Packet
unfolding packet_of_type packet_of_msg
packet_of ping = packet_of_type PacketType.ping
packet_of pong = packet_of_type PacketType.pong
packet_of (greeting m) = packet_of_msg m

-- The type, and for a greeting the payload's length and the payload; numbers in network order.
unfoldable pub wire : Message → List ℕ
wire ping = store32 big 0
wire pong = store32 big 1
wire (greeting m) = store32 big 2 ++ (store32 big (length m) ++ m)

-- The whole packet is counted by a uint32_t.
abbrev pub Fits : Message → Type 0
Fits (greeting m) = (8 + length m < 2 ^ 32) × All IsByte m
Fits _ = Unit {0}

resize_four :
    (a b c d n : ℕ)
    → resize (a ∷ b ∷ c ∷ d ∷ []) (4 + 4 + n) ≡ a ∷ b ∷ c ∷ d ∷ 0 ∷ 0 ∷ 0 ∷ 0 ∷ replicate n 0
unfolding resize
resize_four a b c d n =
    let e : 4 + 4 + n ≡ suc (suc (suc (suc (suc (suc (suc (suc n))))))) = omega arith in
    let f : suc (suc (suc (suc (suc (suc (suc (suc n))))))) - 4 ≡ suc (suc (suc (suc n))) =
      omega arith in
    rw e (rw f refl)

-- The copies of the length and of the message fill the grown vector.
copies :
    (a b c d w x y z : ℕ) (m : List ℕ)
    → (write_at (a ∷ b ∷ c ∷ d ∷ 0 ∷ 0 ∷ 0 ∷ 0 ∷ replicate (length m) 0) 4 (w ∷ x ∷ y ∷ z ∷ [])
        >>= λ with_length. write_at with_length 8 m)
      ≡ done (a ∷ b ∷ c ∷ d ∷ w ∷ x ∷ y ∷ z ∷ m)
copies a b c d w x y z m =
    let grown : List ℕ = a ∷ b ∷ c ∷ d ∷ 0 ∷ 0 ∷ 0 ∷ 0 ∷ replicate (length m) 0 in
    let whole : List ℕ = a ∷ b ∷ c ∷ d ∷ w ∷ x ∷ y ∷ z ∷ replicate (length m) 0 in
    let n = length-replicate {A = ℕ} (length m) 0 in
    rw (write_at-done grown 4 (w ∷ x ∷ y ∷ z ∷ []) (omega (arith, n))) (
      rw (write_at-done whole 8 m (omega (arith, n)))
        (rw (drop_all (8 + length m) whole (omega (arith, n))) (rw append-nil)))

-- The growth of the vector, the length and the message, as encode makes them.
encode_payload_lem :
    (o : ByteOrder) (a b c d : ℕ) (m : List ℕ)
    → length m < 2 ^ 32
    → encode_payload o (packet_of_msg m) (a ∷ b ∷ c ∷ d ∷ [])
      ≡ done ((a ∷ b ∷ c ∷ d ∷ []) ++ (store32 big (length m) ++ m))
unfolding encode_payload packet_of_msg store32
encode_payload_lem o a b c d m h =
    let whole : length m % 2 ^ 32 ≡ length m = omega arith in
    rw (whole, resize_four, store32-htonl) (copies a b c d _ _ _ _ m)

-- On every host encode writes the wire format.
pub encode-wire : (o : ByteOrder) (m : Message) → Fits m → encode o (packet_of m) ≡ done (wire m)
unfolding encode packet_of wire write_at u32_of_type store32
encode-wire o ping h = rw store32-htonl refl
encode-wire o pong h = rw store32-htonl refl
encode-wire o (greeting m) h = rw store32-htonl (encode_payload_lem o 0 0 0 2 m (omega arith))

pub wire-All : (m : Message) → Fits m → All IsByte (wire m)
unfolding wire store32
wire-All ping h = omega arith
wire-All pong h = omega arith
wire-All (greeting m) h =
    All-append IsByte (store32 big 2) (store32 big (length m) ++ m) (store32-All big 2)
      (All-append IsByte (store32 big (length m)) m (store32-All big (length m)) h.1)

pub length-wire_pos : (m : Message) → 0 < length (wire m)
unfolding wire store32
length-wire_pos ping = omega arith
length-wire_pos pong = omega arith
length-wire_pos (greeting m) = omega arith

pub length-wire_greeting : (m : List ℕ) → length (wire (greeting m)) ≡ 8 + length m
unfolding wire store32
length-wire_greeting m = omega arith

pub length-wire_lt : (m : Message) → Fits m → length (wire m) < 2 ^ 32
unfolding wire store32
length-wire_lt ping h = omega arith
length-wire_lt pong h = omega arith
length-wire_lt (greeting m) h = omega arith
