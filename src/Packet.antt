-- ===== src/Packet.antt =====
-- The framed protocol of sandbox/tcp-packet/posix/shared: shared.hh and shared.cc.
pub mod Shape
pub mod Parse
pub mod RoundTrip
pub mod Reading
pub mod Outcomes
mod Tests
use dirty_net.Prelude.{
  ℕ, ◌+◌, ◌%◌, ◌^◌, Bool, true, false, not, Option, none, some, List, [], Run, done, ◌>>=◌, length,
  replicate, ltb, ◌==◌, if◌then◌else◌,
}
use dirty_net.ByteOrder.{ByteOrder, store32, load32, htonl, ntohl}
use dirty_net.Memory.{read_at, write_at, resize}
use Prim.Native.String.{String}

-- `enum class type : uint32_t`. A static_cast makes any uint32_t one of its values; `unnamed` stands
-- for those that no enumerator names.
pub data PacketType : Type 0 where
  ping pong greeting invalid : PacketType
  unnamed : ℕ → PacketType

-- static_cast<uint32_t>(t)
unfoldable pub u32_of_type : PacketType → ℕ
u32_of_type ping = 0
u32_of_type pong = 1
u32_of_type greeting = 2
u32_of_type invalid = 3
u32_of_type (unnamed v) = v

-- static_cast<type>(v)
unfoldable pub type_of_u32 : ℕ → PacketType
type_of_u32 v =
    if v == 0
    then ping
    else if v == 1
    then pong
    else if v == 2
    then greeting
    else if v == 3
    then invalid
    else unnamed v

-- type_as_string
unfoldable pub type_as_string : PacketType → String
type_as_string greeting = "greeting"
type_as_string invalid = "invalid"
type_as_string ping = "ping"
type_as_string pong = "pong"
type_as_string (unnamed v) = "unknown type"

-- t == type::greeting
abbrev pub is_greeting : PacketType → Bool
is_greeting greeting = true
is_greeting _ = false

-- A std::string is its bytes.
pub record Packet : Type 0 where
  pub hdr : PacketType
  pub datalen : ℕ
  pub msg : List ℕ
  pub valid_packet : Bool

-- packet(type t)
unfoldable pub packet_of_type : PacketType → Packet
packet_of_type t = record { hdr = t; datalen = 0; msg = []; valid_packet = not (is_greeting t) }

-- packet(const std::string& str): the length is stored in a uint32_t.
unfoldable pub packet_of_msg : List ℕ → Packet
packet_of_msg str = record {
  hdr = greeting;
  datalen = length str % 2 ^ 32;
  msg = str;
  valid_packet = true;
}

-- packet() = default
abbrev pub default_packet : Packet
default_packet = record { hdr = invalid; datalen = 0; msg = []; valid_packet = true }

-- packet::type_string
unfoldable pub type_string : Packet → String
unfolding type_as_string
type_string p = type_as_string p.hdr

-- packet::encode from the test of `hdr` on. The vector grows to what `datalen` asks for, and all of
-- `msg` is copied into it.
pub encode_payload : ByteOrder → Packet → List ℕ → Run (List ℕ)
encode_payload o p out_buffer =
    if is_greeting p.hdr
    then (do
      let resized = resize out_buffer (4 + 4 + p.datalen)
      with_length ← write_at resized 4 (store32 o (htonl o p.datalen))
      write_at with_length 8 p.msg)
    else done out_buffer

-- packet::encode
unfoldable pub encode : ByteOrder → Packet → Run (List ℕ)
unfolding encode_payload
encode o p = if not p.valid_packet then done [] else (do
  out_buffer ← write_at (replicate 4 0) 0 (store32 o (htonl o (u32_of_type p.hdr)))
  encode_payload o p out_buffer)

pub data ParseStatus : Type 0 where
  complete incomplete invalid : ParseStatus

pub record ParseResult : Type 0 where
  pub status : ParseStatus
  pub pkt : Option Packet
  pub bytes_consumed : ℕ

abbrev pub incomplete_result : ParseResult
incomplete_result = record { status = incomplete; pkt = none; bytes_consumed = 0 }

abbrev pub invalid_result : ParseResult
invalid_result = record { status = ParseStatus.invalid; pkt = none; bytes_consumed = 0 }

abbrev pub complete_result : Packet → ℕ → ParseResult
complete_result p n = record { status = complete; pkt = some p; bytes_consumed = n }

-- parse_packet once the payload's length is known. `totalLen` is a uint32_t.
pub parse_payload : List ℕ → ℕ → Run ParseResult
parse_payload buffer payload_len =
    let total_len = (4 + 4 + payload_len) % 2 ^ 32 in
    if ltb (length buffer) total_len then done incomplete_result else (do
      msg ← read_at buffer 8 payload_len
      done (complete_result (packet_of_msg msg) total_len))

-- parse_packet behind the switch: the length and the payload.
pub parse_greeting : ByteOrder → List ℕ → Run ParseResult
parse_greeting o buffer =
    if ltb (length buffer) (4 + 4)
    then done incomplete_result
    else (do raw_len ← read_at buffer 4 4; parse_payload buffer (ntohl o (load32 o raw_len)))

-- The switch of parse_packet.
pub parse_typed : ByteOrder → List ℕ → PacketType → Run ParseResult
parse_typed o buffer ping = done (complete_result (packet_of_type ping) 4)
parse_typed o buffer pong = done (complete_result (packet_of_type pong) 4)
parse_typed o buffer greeting = parse_greeting o buffer
parse_typed o buffer _ = done invalid_result

-- parse_packet
unfoldable pub parse_packet : ByteOrder → List ℕ → Run ParseResult
unfolding parse_typed parse_greeting parse_payload
parse_packet o buffer = if ltb (length buffer) 4 then done incomplete_result else (do
  type_raw ← read_at buffer 0 4
  parse_typed o buffer (type_of_u32 (ntohl o (load32 o type_raw))))

unfoldable pub create_ping : Packet
unfolding packet_of_type
create_ping = packet_of_type ping

unfoldable pub create_pong : Packet
unfolding packet_of_type
create_pong = packet_of_type pong

unfoldable pub create_msg : List ℕ → Packet
unfolding packet_of_msg
create_msg msg = packet_of_msg msg
