-- ===== src/Packet/Tests.antt =====
-- The protocol's functions at concrete inputs.
use dirty_net.Prelude.{
  ℕ, ◌-◌, ◌^◌, ◌≡◌, ◌≢◌, refl, List, [], ◌∷◌, ◌++◌, done, fault, ◌>>=◌, length, arith,
}
use dirty_net.ByteOrder.{little, big, store32, load32, htonl, ntohl}
use dirty_net.Memory.{read_at, write_at, resize}
use dirty_net.Packet.{
  default_packet, complete_result, incomplete_result, invalid_result, encode, parse_packet,
  create_msg, parse_typed, type_of_u32, u32_of_type,
}
use dirty_net.Packet.Shape.{greeting, packet_of, wire}
use dirty_net.Packet.RoundTrip.{parse-encode}
use dirty_net.Packet.Outcomes.{
  IsBuffer, parse_complete_iff, parse_fault_iff, parse_final, parse_prefix,
}

abbrev hi : List ℕ
hi = b'h' ∷ b'i' ∷ []

abbrev hi_bytes : List ℕ
hi_bytes = 0 ∷ 0 ∷ 0 ∷ 2 ∷ 0 ∷ 0 ∷ 0 ∷ 2 ∷ b'h' ∷ b'i' ∷ []

encode-hi : encode little (create_msg hi) ≡ done hi_bytes
unfolding encode create_msg write_at resize store32 load32 htonl u32_of_type
encode-hi = refl

-- A default packet encodes, and the parser refuses it.
default_refused :
    (encode little default_packet >>= λ bytes. parse_packet little bytes) ≡ done invalid_result
unfolding encode parse_packet write_at read_at resize store32 load32 htonl ntohl u32_of_type
    type_of_u32
default_refused = refl

-- A greeting of length 2^32 - 1 in eight bytes.
abbrev huge : List ℕ
huge = 0 ∷ 0 ∷ 0 ∷ 2 ∷ 255 ∷ 255 ∷ 255 ∷ 255 ∷ []

wire-hi : wire (greeting hi) ≡ hi_bytes
unfolding wire store32
wire-hi = refl

parse-encode_example :
    (encode little (packet_of (greeting hi)) >>= λ bytes. parse_packet big (bytes ++ (0 ∷ [])))
    ≡ done (complete_result (packet_of (greeting hi)) (length (wire (greeting hi))))
parse-encode_example = parse-encode little big (greeting hi) (0 ∷ []) (omega arith)

hi-IsBuffer : IsBuffer (hi_bytes ++ (7 ∷ []))
hi-IsBuffer = record { bytes = omega arith; short = omega arith }

parse_complete_iff_example :
    parse_packet big (hi_bytes ++ (7 ∷ [])) ≡ done (complete_result (packet_of (greeting hi)) 10)
unfolding wire store32
parse_complete_iff_example =
    (parse_complete_iff big (hi_bytes ++ (7 ∷ [])) (packet_of (greeting hi)) 10 hi-IsBuffer).1
      (greeting hi, 7 ∷ [], omega arith, refl, refl, refl)

parse_fault_iff_example : parse_packet little huge ≡ fault
unfolding store32
parse_fault_iff_example =
    (parse_fault_iff little huge (record { bytes = omega arith; short = omega arith })).1
      (2 ^ 32 - 1, [], omega arith, omega arith, refl)

parse_final_example : parse_packet little (hi_bytes ++ (7 ∷ [])) ≡ parse_packet little hi_bytes
parse_final_example = parse_final little hi_bytes (7 ∷ []) hi-IsBuffer hi_done
  where
    hi_done : parse_packet little hi_bytes ≢ done incomplete_result
    hi_done e = unfold parse_packet parse_typed read_at load32 store32 ntohl type_of_u32 in cc e

parse_prefix_example : parse_packet little (0 ∷ 0 ∷ 0 ∷ 2 ∷ 0 ∷ []) ≡ done incomplete_result
parse_prefix_example =
    parse_prefix little (greeting hi) (0 ∷ 0 ∷ 0 ∷ 2 ∷ 0 ∷ []) 0 (0 ∷ 2 ∷ b'h' ∷ b'i' ∷ [])
      (omega arith) wire-hi
