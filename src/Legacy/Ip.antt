-- ===== src/Legacy/Ip.antt =====
-- archive/legacy-dirtynet/core/ipv4.hh, ipv4.cc, ipv6.hh, ipv6.cc, ip.hh and ip.cc. The system's inet_pton and
-- inet_ntop are the members of an argument; inet_ntop gets an array that is large enough, and does not fail.
pub mod Laws
mod Tests
use dirty_net.Prelude.{
  ℕ, suc, Bool, true, false, ◌||◌, Option, none, some, List, [], ◌∷◌, ◌++◌, length, take, drop,
  replicate, Run, done, fault, ◌==◌, if◌then◌else◌, ◌>>=◌,
}
use dirty_net.Memory.{read_at, same_bytes}
use dirty_net.Text.{c_str}
use dirty_net.Legacy.{View}
use dirty_net.Legacy.Util.{index_of, find_end_char}

-- An in_addr is its s_addr, an in6_addr the list of its four words.
pub record Conversions : Type 0 where
  pub pton4 : List ℕ → Option ℕ
  pub ntop4 : ℕ → List ℕ
  pub pton6 : List ℕ → Option (List ℕ)
  pub ntop6 : List ℕ → List ℕ

-- The members of ipv4 and of ipv6: the two classes differ in the kind of address and in the array's size.
pub record Held (A : Type 0) : Type 0 where
  pub addr : A
  pub addr_str : List ℕ
  pub valid : Bool

-- `inet_pton(...) == 1` leaves the address as it was where it fails.
abbrev held_of : {A : Type 0} → Option A → A → List ℕ → Held A
held_of (some a) zeroed bytes = record { addr = a; addr_str = bytes; valid = true }
held_of none zeroed bytes = record { addr = zeroed; addr_str = bytes; valid = false }

-- The memory from &ipString[0] on. An empty view has no first byte.
abbrev pub pointer_of : List ℕ → List ℕ → Run (List ℕ)
pointer_of [] behind = fault
pointer_of (b ∷ bs) behind = done ((b ∷ bs) ++ behind)

-- The constructor from a view: the memcpy has the array's size, whatever the view's is.
abbrev of_view : {A : Type 0} → ℕ → (List ℕ → Option A) → A → View → Run (Held A)
of_view size pton zeroed v = do
  memory ← pointer_of v.text v.behind
  bytes ← read_at memory 0 size
  done (held_of (pton (c_str v.text)) zeroed bytes)

-- inet_ntop writes the text and a NUL.
abbrev print_into : List ℕ → List ℕ → List ℕ
print_into text array = text ++ (0 ∷ drop (suc (length text)) array)

-- String(): what it returns, and the object behind it; its array and its flag are mutable.
abbrev string_of : {A : Type 0} → (A → List ℕ) → Held A → List ℕ × Held A
string_of ntop h =
    let printed = print_into (ntop h.addr) h.addr_str in
    if h.valid then (take (find_end_char h.addr_str 0) h.addr_str, h) else (
      take (find_end_char printed 0) printed,
      record { addr = h.addr; addr_str = printed; valid = true },
    )

-- INET_ADDRSTRLEN and INET6_ADDRSTRLEN
abbrev pub inet_addrstrlen : ℕ
inet_addrstrlen = 16

abbrev pub inet6_addrstrlen : ℕ
inet6_addrstrlen = 46

-- ipv4(uint32_t) and ipv4(in_addr)
abbrev pub ipv4_of_int : ℕ → Held ℕ
ipv4_of_int n = record { addr = n; addr_str = replicate inet_addrstrlen 0; valid = false }

-- ipv4(std::string_view)
unfoldable pub ipv4_of_view : Conversions → View → Run (Held ℕ)
ipv4_of_view inet v = of_view inet_addrstrlen inet.pton4 0 v

-- ipv4::String
unfoldable pub ipv4_string : Conversions → Held ℕ → List ℕ × Held ℕ
ipv4_string inet h = string_of inet.ntop4 h

abbrev pub zero_words : List ℕ
zero_words = replicate 4 0

-- ipv6(const in6_addr&)
unfoldable pub ipv6_of_addr : Conversions → List ℕ → Held (List ℕ)
ipv6_of_addr inet words = record {
  addr = words;
  addr_str = print_into (inet.ntop6 words) (replicate inet6_addrstrlen 0);
  valid = true;
}

-- ipv6(const Range&): any number of words but four leaves the object as it starts.
unfoldable pub ipv6_of_range : Conversions → List ℕ → Held (List ℕ)
unfolding ipv6_of_addr
ipv6_of_range inet words =
    if length words == 4
    then ipv6_of_addr inet words
    else record { addr = zero_words; addr_str = replicate inet6_addrstrlen 0; valid = false }

-- ipv6(std::string_view)
unfoldable pub ipv6_of_view : Conversions → View → Run (Held (List ℕ))
ipv6_of_view inet v = of_view inet6_addrstrlen inet.pton6 zero_words v

-- ipv6::String
unfoldable pub ipv6_string : Conversions → Held (List ℕ) → List ℕ × Held (List ℕ)
ipv6_string inet h = string_of inet.ntop6 h

-- operator== of two in6_addr, which goes over the four words
unfoldable pub words_eq : List ℕ → List ℕ → Bool
words_eq a b = same_bytes (take 4 a) (take 4 b)

-- class ip: std::variant<ipv4, ipv6>
pub data Ip : Type 0 where
  ipv4 : Held ℕ → Ip
  ipv6 : Held (List ℕ) → Ip

-- ip::Valid
unfoldable pub valid_ip : Ip → Bool
valid_ip (ipv4 h) = h.valid
valid_ip (ipv6 h) = h.valid

-- ip::AddressType, std::variant<in_addr, in6_addr>
pub data AddressType : Type 0 where
  in_addr : ℕ → AddressType
  in6_addr : List ℕ → AddressType

-- ip::Address
unfoldable pub address : Ip → AddressType
address (ipv4 h) = in_addr h.addr
address (ipv6 h) = in6_addr h.addr

-- ip::init_from_addresstype, for ip(const AddressType&), ip(in_addr) and ip(in6_addr)
unfoldable pub init_from_addresstype : Conversions → AddressType → Ip
unfolding ipv6_of_addr
init_from_addresstype inet (in_addr n) = ipv4 (ipv4_of_int n)
init_from_addresstype inet (in6_addr words) = ipv6 (ipv6_of_addr inet words)

-- ip::String
abbrev ipv4_behind : List ℕ × Held ℕ → List ℕ × Ip
ipv4_behind (text, h) = (text, ipv4 h)

abbrev ipv6_behind : List ℕ × Held (List ℕ) → List ℕ × Ip
ipv6_behind (text, h) = (text, ipv6 h)

unfoldable pub ip_string : Conversions → Ip → List ℕ × Ip
ip_string inet (ipv4 h) = ipv4_behind (ipv4_string inet h)
ip_string inet (ipv6 h) = ipv6_behind (ipv6_string inet h)

-- ip::parse: a colon tells an IPv6 address.
abbrev has_colon : Option ℕ → Bool
has_colon none = false
has_colon (some i) = true

unfoldable pub parse_ip : Conversions → View → Run Ip
parse_ip inet v =
    if has_colon (index_of b':' v.text)
    then ipv6_of_view inet v >>= (λ h. done (ipv6 h))
    else (ipv4_of_view inet v >>= (λ h. done (ipv4 h)))
