-- ===== src/Posix/Ip/Parse.antt =====
-- Addresses read from text.
use dirty_net.Prelude.{ℕ, ◌≡◌, ◌⊎◌, ◌↔◌, List, ◌∷◌, ◌++◌, arith}
use dirty_net.Prelude.Int.{pos, negsuc}
use dirty_net.Text.{c_str}
use dirty_net.Text.Laws.{IsText, c_str-nul, c_str_text}
use dirty_net.Posix.Ip.{
  Inet, eafnosupport, IpParseError, invalid_address, unsupported_address_family, ok, unexpected, Ip,
  ipv4_from_ip_string, from_ipv4_string, from_ip_string,
}

-- What POSIX documents of inet_pton: it answers 1, 0 or -1.
pub record InetLaws (inet : Inet) : Type 0 where
  pub answers :
      (s : List ℕ)
      → ((inet.inet_pton s).result ≡ pos 1)
        ⊎ (((inet.inet_pton s).result ≡ pos 0) ⊎ ((inet.inet_pton s).result ≡ negsuc 0))

-- The two parsers accept the same texts, with the same address. On any other text from_ip_string answers invalid_address, while from_ipv4_string tells a text that is no address (inet_pton gives 0) from the system's failures, by errno.
pub parsers_agree :
    (inet : Inet) (s : List ℕ)
    → InetLaws inet
    → ((i : Ip) → (from_ip_string inet s ≡ ok i) ↔ (from_ipv4_string inet s ≡ ok i))
      × ((e : IpParseError) → from_ip_string inet s ≡ unexpected e → e ≡ invalid_address)
      × ((from_ipv4_string inet s ≡ unexpected invalid_address)
          ↔ ((inet.inet_pton (c_str s)).result ≡ pos 0))
      × ((from_ipv4_string inet s ≡ unexpected unsupported_address_family) ↔ (
          ((inet.inet_pton (c_str s)).result ≡ negsuc 0)
          × ((inet.inet_pton (c_str s)).errno ≡ eafnosupport)))
unfolding from_ip_string from_ipv4_string ipv4_from_ip_string
parsers_agree inet s l = (
  λ i. ((λ e. ground (arith, l.answers (c_str s))), (λ e. ground (arith, l.answers (c_str s)))),
  λ e h. ground (arith, l.answers (c_str s)),
  ((λ e. ground (arith, l.answers (c_str s))), (λ e. ground (arith, l.answers (c_str s)))),
  ((λ e. ground (arith, l.answers (c_str s))), (λ e. ground (arith, l.answers (c_str s)))),
)

ipv4_nul :
    (inet : Inet) (s more : List ℕ)
    → IsText s
    → ipv4_from_ip_string inet (s ++ (0 ∷ more)) ≡ ipv4_from_ip_string inet s
unfolding ipv4_from_ip_string
ipv4_nul inet s more h = ground (arith, c_str-nul s more h, c_str_text s h)

-- What stands behind a NUL byte in a text is not looked at: both parsers give what they give for the text in front of it.
pub parse-nul :
    (inet : Inet) (s more : List ℕ)
    → IsText s
    → (from_ip_string inet (s ++ (0 ∷ more)) ≡ from_ip_string inet s)
      × (from_ipv4_string inet (s ++ (0 ∷ more)) ≡ from_ipv4_string inet s)
unfolding from_ip_string from_ipv4_string
parse-nul inet s more h = ground (arith, ipv4_nul inet s more h)
