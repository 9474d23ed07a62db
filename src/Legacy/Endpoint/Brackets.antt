-- ===== src/Legacy/Endpoint/Brackets.antt =====
-- parse_endpoint on an IPv6 address in brackets and a port.
use dirty_net.Prelude.{
  ℕ, ◌-◌, ◌^◌, ◌≤◌, ◌<◌, ◌≡◌, ◌≢◌, refl, ap, ◌∙◌, true, false, Bool-cases, inl, inr, some, List, [],
  ◌∷◌, ◌++◌, length, length-append, take, take-length_append, drop-length_append, All, done, arith,
}
use dirty_net.ByteOrder.{ByteOrder, htons}
use dirty_net.Memory.{same_bytes}
use dirty_net.Memory.Laws.{same_bytes-eq, read_at-done}
use dirty_net.Text.{c_str}
use dirty_net.Text.Laws.{value_from, IsDigit}
use dirty_net.Text.FromChars.{from_chars_digits}
use dirty_net.Posix.Ip.{ok}
use dirty_net.Legacy.{View}
use dirty_net.Legacy.Util.{index_of}
use dirty_net.Legacy.Util.Split.{take-find_end_char}
use dirty_net.Legacy.Ip.{
  Conversions, ipv6, parse_ip, in6_addr, address, ip_string, ipv6_string, ipv6_of_view,
}
use dirty_net.Legacy.Ip.Laws.{reach, pointer_of-reach}
use dirty_net.Legacy.Endpoint.{
  Endpoint, endpoint_of_ip, endpoint_of_views, localhost, replace_localhost, strip_brackets,
  parse_endpoint, endpoint_address, ip_string_of, last_byte,
}
use dirty_net.Legacy.Endpoint.Laws.{ip_part, parse_split, digits-Without}

-- "[s]"
abbrev pub bracketed : List ℕ → List ℕ
bracketed s = b'[' ∷ (s ++ (b']' ∷ []))

-- The view between the brackets
abbrev pub inner : List ℕ → List ℕ → List ℕ → View
inner s p behind = record { text = s; behind = (b']' ∷ []) ++ ((b':' ∷ p) ++ behind) }

last_byte_lem : (b c : ℕ) (s : List ℕ) → last_byte b (s ++ (c ∷ [])) ≡ c
last_byte_lem b c [] = refl
last_byte_lem b c (x ∷ s) = last_byte_lem x c s

bracketed-ne-localhost : (s : List ℕ) → same_bytes (bracketed s) localhost ≡ false
bracketed-ne-localhost s = elim (Bool-cases (same_bytes (bracketed s) localhost)) [
  | inl e ↦ absurd (differ (same_bytes-eq (bracketed s) localhost e))
  | inr e ↦ e
]
  where
    first : List ℕ → ℕ
    first [] = 0
    first (b ∷ bs) = b

    differ : bracketed s ≢ localhost
    differ e = omega (arith, ap first e)

strip_brackets-inner :
    (s p behind : List ℕ)
    → strip_brackets (replace_localhost (ip_part (bracketed s) p behind)) ≡ done (inner s p behind)
unfolding strip_brackets replace_localhost
strip_brackets-inner s p behind =
    let size : length (s ++ (b']' ∷ [])) - 1 ≡ length s =
      omega (arith, length-append s (b']' ∷ [])) in
    rw (bracketed-ne-localhost s) (
      rw (last_byte_lem b'[' b']' s)
        (rw size (rw (take-length_append s (b']' ∷ []), drop-length_append s (b']' ∷ [])) refl)))

index_of-nonempty : (c i : ℕ) (s : List ℕ) → index_of c s ≡ some i → s ≢ []
unfolding index_of
index_of-nonempty c i [] h e = cc
index_of-nonempty c i (b ∷ s) h e = cc

ipv6_of_view-done :
    (inet : Conversions) (v : View) (words : List ℕ)
    → v.text ≢ []
    → inet.pton6 (c_str v.text) ≡ some words
    → 46 ≤ length (reach v)
    → ipv6_of_view inet v
      ≡ done (record { addr = words; addr_str = take 46 (reach v); valid = true })
unfolding ipv6_of_view
ipv6_of_view-done inet v words n e l =
    rw (pointer_of-reach v n) (rw (read_at-done (reach v) 0 46 (omega (arith, l)), e) refl)

endpoint_of_views-ipv6 :
    (o : ByteOrder) (inet : Conversions) (v : View) (i c : ℕ) (words p : List ℕ)
    → index_of b':' v.text ≡ some i
    → inet.pton6 (c_str v.text) ≡ some words
    → 46 ≤ length (reach v)
    → All IsDigit (c ∷ p)
    → value_from 0 (c ∷ p) < 2 ^ 16
    → endpoint_of_views o inet v (c ∷ p)
      ≡ done (
          ok (
            endpoint_of_ip o
              (ipv6 (record { addr = words; addr_str = take 46 (reach v); valid = true }))
              (value_from 0 (c ∷ p))))
unfolding endpoint_of_views parse_ip
endpoint_of_views-ipv6 o inet v i c words p w e l d small = rw w (
    rw (ipv6_of_view-done inet v words (index_of-nonempty b':' i v.text w) e l)
      (rw (from_chars_digits 65535 0 c p d (omega (arith, small))) refl))

-- An IPv6 address that inet_pton accepts and that has a colon, in brackets, then a colon and the decimal digits
-- of a number below 2^16, with 46 bytes of memory from behind the bracket on, are parsed as the endpoint of this
-- address and port, the latter in network order as well. But IpString() gives what stands in these 46
-- bytes up to a NUL: behind the address also the closing bracket, and what follows it.
pub parse_endpoint-bracketed :
    (o : ByteOrder) (inet : Conversions) (i c : ℕ) (words s p behind : List ℕ)
    → index_of b':' s ≡ some i
    → inet.pton6 (c_str s) ≡ some words
    → 46 ≤ length (reach (inner s (c ∷ p) behind))
    → All IsDigit (c ∷ p)
    → value_from 0 (c ∷ p) < 2 ^ 16
    → (e : Endpoint) × (parse_endpoint o inet
          (record { text = bracketed s ++ (b':' ∷ c ∷ p); behind = behind })
        ≡ done (ok e))
      × (endpoint_address e ≡ in6_addr words)
      × (e.port ≡ value_from 0 (c ∷ p))
      × (e.net_port ≡ htons o (value_from 0 (c ∷ p)))
      × (ip_string_of inet e ≡ c_str (take 46 (s ++ (b']' ∷ b':' ∷ c ∷ (p ++ behind)))))
unfolding endpoint_of_ip address ip_string ipv6_string
parse_endpoint-bracketed o inet i c words s p behind w e l d small =
    let v : View = inner s (c ∷ p) behind in
    (
      endpoint_of_ip o (ipv6 (record { addr = words; addr_str = take 46 (reach v); valid = true }))
          (value_from 0 (c ∷ p)),
      parse_split o inet (bracketed s) (c ∷ p) behind (digits-Without (c ∷ p) d)
          ∙ rw (strip_brackets-inner s (c ∷ p) behind)
              (endpoint_of_views-ipv6 o inet v i c words p w e l d small),
      refl,
      refl,
      refl,
      take-find_end_char (take 46 (reach v)),
    )
