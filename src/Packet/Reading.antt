-- ===== src/Packet/Reading.antt =====
-- What parse_packet can answer, for every buffer.
use dirty_net.Prelude.{
  ℕ, ◌+◌, ◌^◌, ◌≤◌, ◌<◌, ◌≡◌, refl, ap, sym, subst, ◌∙◌, List, ◌∷◌, ◌++◌, arith, done, fault,
  length, length-take, take, drop, All, All-take, take-append-drop, append_assoc,
}
use native.Mathlib.Decide.{dec_lt, ℕ_discrete}
use dirty_net.ByteOrder.{ByteOrder, big, IsByte, store32, load32}
use dirty_net.ByteOrder.Laws.{four, store32-load32}
use dirty_net.Packet.{
  PacketType, packet_of_msg, type_of_u32, complete_result, incomplete_result, invalid_result,
  parse_packet, parse_typed, parse_greeting, parse_payload,
}
use dirty_net.Packet.Shape.{
  Message, ping, pong, greeting, Fits, packet_of, wire, length-wire_greeting,
}
use dirty_net.Packet.Parse.{
  net32, parse_short, parse_switch, greeting_short, greeting_length, payload_waits,
  payload_completes, payload_overruns,
}

-- The four answers, each with what it says of the buffer.
pub data Reading (o : ByteOrder) (buffer : List ℕ) : Type 0 where
  waits : parse_packet o buffer ≡ done incomplete_result → Reading o buffer
  refuses :
      (a b c d : ℕ) (rest : List ℕ)
      → buffer ≡ a ∷ b ∷ c ∷ d ∷ rest
      → 2 < net32 a b c d
      → parse_packet o buffer ≡ done invalid_result
      → Reading o buffer
  overruns :
      (n : ℕ) (rest : List ℕ)
      → buffer ≡ store32 big 2 ++ (store32 big n ++ rest)
      → n < 2 ^ 32
      → 2 ^ 32 ≤ 8 + n
      → parse_packet o buffer ≡ fault
      → Reading o buffer
  reads :
      (m : Message) (rest : List ℕ)
      → Fits m
      → buffer ≡ wire m ++ rest
      → parse_packet o buffer ≡ done (complete_result (packet_of m) (length (wire m)))
      → Reading o buffer

-- Enough bytes behind a length are a greeting and a rest.
greeting_split :
    (n : ℕ) (rest : List ℕ)
    → n ≤ length rest
    → store32 big 2 ++ (store32 big n ++ rest) ≡ wire (greeting (take n rest)) ++ drop n rest
unfolding wire
greeting_split n rest h =
    let e : length (take n rest) ≡ n = omega (arith, length-take n rest) in
    rw e (simp (append_assoc, take-append-drop))

Reading-payload :
    (o : ByteOrder) (n : ℕ) (rest buffer : List ℕ)
    → buffer ≡ store32 big 2 ++ (store32 big n ++ rest)
    → length buffer ≡ 8 + length rest
    → drop 8 buffer ≡ rest
    → All IsByte rest
    → length buffer < 2 ^ 32
    → n < 2 ^ 32
    → parse_packet o buffer ≡ parse_payload buffer n
    → Reading o buffer
unfolding packet_of
Reading-payload o n rest buffer b l d h short word e = elim (dec_lt (8 + n) (2 ^ 32)) [
  | no wraps ↦
      overruns n rest b word (omega arith)
        (e ∙ payload_overruns buffer n (omega arith) word (omega arith) (omega arith))
  | yes small ↦ elim (dec_lt (length buffer) (8 + n)) [
    | yes missing ↦ waits (e ∙ payload_waits buffer n small missing)
    | no enough ↦
        let size : 8 + n ≡ length (wire (greeting (take n rest))) =
          omega (arith, length-wire_greeting (take n rest), length-take n rest) in
        reads (greeting (take n rest)) (drop n rest)
          (omega (arith, length-take n rest), All-take IsByte n rest h)
          (b ∙ greeting_split n rest (omega arith))
          (e
            ∙ payload_completes buffer n small (omega arith)
            ∙ ap (λ t. done (complete_result (packet_of_msg (take n t)) (8 + n))) d
            ∙ ap (λ k. done (complete_result (packet_of_msg (take n rest)) k)) size)
  ]
]

Reading-greeting :
    (o : ByteOrder) (tail : List ℕ)
    → (let buffer = 0 ∷ 0 ∷ 0 ∷ 2 ∷ tail in
        All IsByte tail
        → length buffer < 2 ^ 32
        → parse_packet o buffer ≡ parse_greeting o buffer
        → Reading o buffer)
unfolding store32 load32
Reading-greeting o (w ∷ x ∷ y ∷ z ∷ rest) h short e =
    let n : ℕ = net32 w x y z in
    let buffer : List ℕ = 0 ∷ 0 ∷ 0 ∷ 2 ∷ w ∷ x ∷ y ∷ z ∷ rest in
    let bytes : All IsByte (four w x y z) = omega arith in
    Reading-payload o n rest buffer
      (ap (λ t. store32 big 2 ++ (t ++ rest)) (sym (store32-load32 big w x y z bytes)))
      (omega arith) refl h.1.1.1.1 short (omega arith)
      (e ∙ greeting_length o 0 0 0 2 w x y z rest bytes)
Reading-greeting o tail h short e =
    waits (e ∙ greeting_short o (0 ∷ 0 ∷ 0 ∷ 2 ∷ tail) (omega arith))

typed_refused :
    (o : ByteOrder) (buffer : List ℕ) (v : ℕ)
    → 2 < v
    → parse_typed o buffer (type_of_u32 v) ≡ done invalid_result
unfolding parse_typed type_of_u32
typed_refused o buffer v h = ground arith

-- The type that the first four bytes spell.
Reading-typed :
    (o : ByteOrder) (a b c d : ℕ) (rest : List ℕ)
    → (let buffer = a ∷ b ∷ c ∷ d ∷ rest in
        All IsByte buffer
        → length buffer < 2 ^ 32
        → parse_packet o buffer ≡ parse_typed o buffer (type_of_u32 (net32 a b c d))
        → Reading o buffer)
unfolding parse_typed type_of_u32 packet_of wire store32
Reading-typed o a b c d rest h short e =
    let v : ℕ = net32 a b c d in
    let buffer : List ℕ = a ∷ b ∷ c ∷ d ∷ rest in
    let spells : (t : ℕ) → t < 256 → v ≡ t → buffer ≡ 0 ∷ 0 ∷ 0 ∷ t ∷ rest =
      λ t low q. ground arith in
    let branch : (t : PacketType)
        → type_of_u32 v ≡ t
        → parse_packet o buffer ≡ parse_typed o buffer t =
      λ t q. e ∙ ap (parse_typed o buffer) q in
    elim (ℕ_discrete v 0) [
      | yes q ↦
          reads ping rest tt (spells 0 (omega arith) q) (branch PacketType.ping (ground arith))
      | no ne_ping ↦ elim (ℕ_discrete v 1) [
        | yes q ↦
            reads pong rest tt (spells 1 (omega arith) q) (branch PacketType.pong (ground arith))
        | no ne_pong ↦ elim (ℕ_discrete v 2) [
          | yes q ↦
              subst
                (λ t.
                  All IsByte rest
                  → length t < 2 ^ 32
                  → parse_packet o t ≡ parse_greeting o t
                  → Reading o t)
                (sym (spells 2 (omega arith) q)) (Reading-greeting o rest) h.1.1.1.1 short
                (branch PacketType.greeting (ground arith))
          | no ne_greeting ↦
              refuses a b c d rest refl (omega arith) (e ∙ typed_refused o buffer v (omega arith))
        ]
      ]
    ]

-- Every buffer of bytes below 4 GiB is waited for, refused, overrun or read.
pub reading :
    (o : ByteOrder) (buffer : List ℕ)
    → All IsByte buffer
    → length buffer < 2 ^ 32
    → Reading o buffer
reading o (a ∷ b ∷ c ∷ d ∷ rest) h short =
    Reading-typed o a b c d rest h short (parse_switch o a b c d rest (omega arith))
reading o buffer h short = waits (parse_short o buffer (omega arith))

-- Four bytes that spell no type the parser takes are refused, whatever follows them.
pub parse_refused :
    (o : ByteOrder) (a b c d : ℕ) (rest : List ℕ)
    → All IsByte (four a b c d)
    → 2 < net32 a b c d
    → parse_packet o (a ∷ b ∷ c ∷ d ∷ rest) ≡ done invalid_result
parse_refused o a b c d rest h k =
    parse_switch o a b c d rest h ∙ typed_refused o (a ∷ b ∷ c ∷ d ∷ rest) (net32 a b c d) k
