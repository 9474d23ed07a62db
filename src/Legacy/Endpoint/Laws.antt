-- ===== src/Legacy/Endpoint/Laws.antt =====
-- parse_endpoint on an IPv4 address and a port, and where it reads out of bounds.
use dirty_net.Prelude.{
  ℕ, ◌+◌, ◌^◌, ◌≤◌, ◌<◌, ◌≡◌, ◌≢◌, refl, sym, ap, ◌∙◌, true, false, Bool-cases, inl, inr, none,
  some, List, [], ◌∷◌, ◌++◌, length, take, drop, take-length_append, drop-length_append, All, done,
  fault, arith, ◌==◌, ◌>>=◌,
}
use dirty_net.ByteOrder.{ByteOrder, htons}
use dirty_net.Memory.{same_bytes}
use dirty_net.Memory.Laws.{same_bytes-eq}
use dirty_net.Text.{c_str}
use dirty_net.Text.Laws.{value_from, IsDigit}
use dirty_net.Text.FromChars.{from_chars_digits}
use dirty_net.Posix.Ip.{ok}
use dirty_net.Legacy.{View}
use dirty_net.Legacy.Util.{index_of}
use dirty_net.Legacy.Util.Split.{Without, drop-drop, index_of-Without, take-find_end_char}
use dirty_net.Legacy.Ip.{Conversions, ipv4, parse_ip, in_addr, address, ip_string, ipv4_string}
use dirty_net.Legacy.Ip.Laws.{reach, ipv4_of_view-done, ipv4_of_view-fault}
use dirty_net.Legacy.Endpoint.{
  Endpoint, find_last_of, endpoint_of_ip, endpoint_of_views, localhost, loopback, replace_localhost,
  strip_brackets, parse_endpoint, endpoint_address, ip_string_of,
}

find_last_of-none : (c : ℕ) (s : List ℕ) → Without c s → find_last_of c s ≡ none
unfolding find_last_of
find_last_of-none c [] h = refl
find_last_of-none c (b ∷ s) h =
    let differs : (b == c) ≡ false = ground (arith, h.0) in
    rw (find_last_of-none c s h.1, differs) refl

find_last_of_lem :
    (c : ℕ) (s p : List ℕ) → Without c p → find_last_of c (s ++ (c ∷ p)) ≡ some (length s)
unfolding find_last_of
find_last_of_lem c [] p h =
    let same : (c == c) ≡ true = ground arith in rw (find_last_of-none c p h, same) refl
find_last_of_lem c (b ∷ s) p h = rw (find_last_of_lem c s p h) refl

-- The view in front of the last colon, and the port behind it.
abbrev pub ip_part : List ℕ → List ℕ → List ℕ → View
ip_part s p behind = record { text = s; behind = (b':' ∷ p) ++ behind }

pub parse_split :
    (o : ByteOrder) (inet : Conversions) (s p behind : List ℕ)
    → Without b':' p
    → parse_endpoint o inet (record { text = s ++ (b':' ∷ p); behind = behind }) ≡ (
        strip_brackets (replace_localhost (ip_part s p behind)) >>= λ ip_str.
        endpoint_of_views o inet ip_str p)
unfolding parse_endpoint
parse_split o inet s p behind h =
    let port : drop (length s + 1) (s ++ (b':' ∷ p)) ≡ p =
      sym (drop-drop 1 (length s) (s ++ (b':' ∷ p)))
      ∙ ap (drop 1) (drop-length_append s (b':' ∷ p)) in
    rw (find_last_of_lem b':' s p h)
      (rw (take-length_append s (b':' ∷ p), drop-length_append s (b':' ∷ p), port) refl)

-- "localhost" is replaced by a literal that is shorter than the 16 bytes that ipv4 copies, and an
-- empty address has no first byte: on both, with a colon and any text without a colon behind,
-- parse_endpoint reads out of bounds.
pub parse_endpoint-fault :
    (o : ByteOrder) (inet : Conversions) (p behind : List ℕ)
    → Without b':' p
    → (parse_endpoint o inet (record { text = localhost ++ (b':' ∷ p); behind = behind }) ≡ fault)
      × (parse_endpoint o inet (record { text = b':' ∷ p; behind = behind }) ≡ fault)
unfolding replace_localhost strip_brackets endpoint_of_views parse_ip index_of same_bytes
parse_endpoint-fault o inet p behind h = (
  parse_split o inet localhost p behind h
      ∙ rw (ipv4_of_view-fault inet loopback (omega arith)) refl,
  parse_split o inet [] p behind h ∙ refl,
)

pub digits-Without : (p : List ℕ) → All IsDigit p → Without b':' p
digits-Without [] h = tt
digits-Without (c ∷ p) h = ((λ e. omega (arith, e, h.0.1)), digits-Without p h.1)

-- A view that is neither "localhost" nor in brackets is taken as it is.
plain_view :
    (b : ℕ) (s p behind : List ℕ)
    → b ∷ s ≢ localhost
    → b ≢ b'['
    → strip_brackets (replace_localhost (ip_part (b ∷ s) p behind))
      ≡ done (ip_part (b ∷ s) p behind)
unfolding strip_brackets replace_localhost
plain_view b s p behind n m =
    let no_bracket : (b == b'[') ≡ false = ground (arith, m) in
    elim (Bool-cases (same_bytes (b ∷ s) localhost)) [
      | inl e ↦ absurd (n (same_bytes-eq (b ∷ s) localhost e))
      | inr e ↦ rw e (rw no_bracket refl)
    ]

endpoint_of_views-ok :
    (o : ByteOrder) (inet : Conversions) (v : View) (a c : ℕ) (p : List ℕ)
    → Without b':' v.text
    → v.text ≢ []
    → inet.pton4 (c_str v.text) ≡ some a
    → 16 ≤ length (reach v)
    → All IsDigit (c ∷ p)
    → value_from 0 (c ∷ p) < 2 ^ 16
    → endpoint_of_views o inet v (c ∷ p)
      ≡ done (
          ok (
            endpoint_of_ip o
              (ipv4 (record { addr = a; addr_str = take 16 (reach v); valid = true }))
              (value_from 0 (c ∷ p))))
unfolding endpoint_of_views parse_ip
endpoint_of_views-ok o inet v a c p w x e l d small = rw (index_of-Without b':' v.text w) (
    rw (ipv4_of_view-done inet v a x e l)
      (rw (from_chars_digits 65535 0 c p d (omega (arith, small))) refl))

-- An IPv4 address that inet_pton accepts, that has no colon, does not begin with a bracket and is
-- not "localhost", then a colon and the decimal digits of a number below 2^16, with 16 bytes of
-- memory from the start on, are parsed as the endpoint of this address and port, the latter in
-- network order as well. But IpString() gives what stands in these 16 bytes up to a NUL: of an
-- address of less than 16 characters also the colon, and what follows it.
pub parse_endpoint-ok :
    (o : ByteOrder) (inet : Conversions) (b c a : ℕ) (s p behind : List ℕ)
    → b ∷ s ≢ localhost
    → b ≢ b'['
    → Without b':' (b ∷ s)
    → inet.pton4 (c_str (b ∷ s)) ≡ some a
    → 16 ≤ length (reach (ip_part (b ∷ s) (c ∷ p) behind))
    → All IsDigit (c ∷ p)
    → value_from 0 (c ∷ p) < 2 ^ 16
    → (e : Endpoint) × (parse_endpoint o inet
          (record { text = (b ∷ s) ++ (b':' ∷ c ∷ p); behind = behind })
        ≡ done (ok e))
      × (endpoint_address e ≡ in_addr a)
      × (e.port ≡ value_from 0 (c ∷ p))
      × (e.net_port ≡ htons o (value_from 0 (c ∷ p)))
      × (ip_string_of inet e ≡ c_str (take 16 (reach (ip_part (b ∷ s) (c ∷ p) behind))))
unfolding endpoint_of_ip address ip_string ipv4_string
parse_endpoint-ok o inet b c a s p behind n m w e l d small =
    let v : View = ip_part (b ∷ s) (c ∷ p) behind in
    (
      endpoint_of_ip o (ipv4 (record { addr = a; addr_str = take 16 (reach v); valid = true }))
          (value_from 0 (c ∷ p)),
      parse_split o inet (b ∷ s) (c ∷ p) behind (digits-Without (c ∷ p) d)
          ∙ rw (plain_view b s (c ∷ p) behind n m)
              (endpoint_of_views-ok o inet v a c p w (λ e. cc) e l d small),
      refl,
      refl,
      refl,
      take-find_end_char (take 16 (reach v)),
    )
