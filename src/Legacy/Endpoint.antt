-- ===== src/Legacy/Endpoint.antt =====
-- archive/legacy-dirtynet/core/endpoint.hh and endpoint.cc.
pub mod Laws
pub mod Brackets
mod Tests
use dirty_net.Prelude.{
  ℕ, suc, ◌+◌, ◌-◌, ◌^◌, Bool, true, false, ◌&&◌, Option, none, some, List, [], ◌∷◌, ◌++◌, length,
  take, drop, Run, done, fault, ◌==◌, if◌then◌else◌, ◌>>=◌,
}
use dirty_net.ByteOrder.{ByteOrder, htons}
use dirty_net.Memory.{same_bytes}
use dirty_net.Text.FromChars.{FromChars, Errc, no_error, from_chars}
use dirty_net.Posix.Ip.{Expected, ok, unexpected}
use dirty_net.Legacy.{View}
use dirty_net.Legacy.Ip.{
  Conversions, Ip, parse_ip, AddressType, address, init_from_addresstype, ip_string,
}

-- class endpoint
pub record Endpoint : Type 0 where
  pub ip : Ip
  pub port : ℕ
  pub net_port : ℕ

-- The two messages of parse_endpoint, with the text that each quotes.
pub data ParseError : Type 0 where
  no_colon invalid_port : List ℕ → ParseError

-- str.find_last_of(c)
abbrev last_from : ℕ → ℕ → Option ℕ → Option ℕ
last_from c b none = if b == c then some 0 else none
last_from c b (some i) = some (suc i)

unfoldable pub find_last_of : ℕ → List ℕ → Option ℕ
find_last_of c [] = none
find_last_of c (b ∷ bs) = last_from c b (find_last_of c bs)

-- endpoint(std::string_view, uint16_t), and those of an address
unfoldable pub endpoint_of_ip : ByteOrder → Ip → ℕ → Endpoint
endpoint_of_ip o i port = record { ip = i; port = port; net_port = htons o port }

unfoldable pub endpoint_of_address : ByteOrder → Conversions → AddressType → ℕ → Endpoint
endpoint_of_address o inet a port = endpoint_of_ip o (init_from_addresstype inet a) port

-- The end of endpoint(std::string_view, std::string_view): it throws where from_chars fails. parse_endpoint catches that.
abbrev port_or_throw : ByteOrder → List ℕ → Ip → FromChars → Errc → Expected Endpoint ParseError
port_or_throw o port_str i r no_error = ok (endpoint_of_ip o i r.value)
port_or_throw o port_str i r _ = unexpected (invalid_port port_str)

unfoldable pub endpoint_of_views :
    ByteOrder → Conversions → View → List ℕ → Run (Expected Endpoint ParseError)
endpoint_of_views o inet ip_str port_str =
    let r = from_chars (2 ^ 16 - 1) 0 port_str in
    parse_ip inet ip_str >>= λ i. done (port_or_throw o port_str i r r.ec)

abbrev pub localhost : List ℕ
localhost = b'l' ∷ b'o' ∷ b'c' ∷ b'a' ∷ b'l' ∷ b'h' ∷ b'o' ∷ b's' ∷ b't' ∷ []

-- The literal "127.0.0.1", and its NUL
abbrev pub loopback : View
loopback = record {
  text = b'1' ∷ b'2' ∷ b'7' ∷ b'.' ∷ b'0' ∷ b'.' ∷ b'0' ∷ b'.' ∷ b'1' ∷ [];
  behind = 0 ∷ [];
}

unfoldable pub replace_localhost : View → View
replace_localhost v = if same_bytes v.text localhost then loopback else v

-- str.back() of a text that is not empty
abbrev pub last_byte : ℕ → List ℕ → ℕ
last_byte b [] = b
last_byte b (c ∷ s) = last_byte c s

-- The brackets around an IPv6 address. front() of an empty view is undefined.
abbrev brackets : List ℕ → List ℕ → Run View
brackets [] memory = fault
brackets (b ∷ s) memory =
    if (b == b'[') && (last_byte b s == b']')
    then done (record { text = take (length s - 1) s; behind = drop (length s - 1) s ++ memory })
    else done (record { text = b ∷ s; behind = memory })

unfoldable pub strip_brackets : View → Run View
strip_brackets v = brackets v.text v.behind

-- parse_endpoint, once the last colon is found
abbrev parse_at : ByteOrder → Conversions → View → Option ℕ → Run (Expected Endpoint ParseError)
parse_at o inet v none = done (unexpected (no_colon v.text))
parse_at o inet v (some colon_pos) =
    strip_brackets (
      replace_localhost
        (record { text = take colon_pos v.text; behind = drop colon_pos v.text ++ v.behind }))
    >>= λ ip_str. endpoint_of_views o inet ip_str (drop (colon_pos + 1) v.text)

unfoldable pub parse_endpoint : ByteOrder → Conversions → View → Run (Expected Endpoint ParseError)
parse_endpoint o inet v = parse_at o inet v (find_last_of b':' v.text)

-- endpoint::Address and endpoint::IpString
abbrev pub endpoint_address : Endpoint → AddressType
endpoint_address e = address e.ip

abbrev pub ip_string_of : Conversions → Endpoint → List ℕ
ip_string_of inet e = (ip_string inet e.ip).0
