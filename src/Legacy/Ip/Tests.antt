-- ===== src/Legacy/Ip/Tests.antt =====
-- String() of objects made of a view and of a number, with conversions that know one address.
use dirty_net.Prelude.{
  ℕ, ◌≤◌, ◌<◌, ◌≡◌, ◌⊎◌, refl, true, false, none, some, List, [], ◌∷◌, length, take, done, fault,
  arith, if◌then◌else◌,
}
use dirty_net.Memory.{same_bytes}
use dirty_net.Text.{c_str}
use dirty_net.Legacy.{View}
use dirty_net.Legacy.Ip.{Conversions, Held, ipv4_of_int, ipv4_of_view, ipv4_string, ipv6_of_range}
use dirty_net.Legacy.Ip.Laws.{reach, ipv4_string-ipv4_of_view, ipv4_string-ipv4_string}

-- "1.2.3.4"
abbrev pub four : List ℕ
four = b'1' ∷ b'.' ∷ b'2' ∷ b'.' ∷ b'3' ∷ b'.' ∷ b'4' ∷ []

abbrev pub conversions : Conversions
conversions = record {
  pton4 = λ s. if same_bytes s four then some 7 else none;
  ntop4 = λ n. four;
  pton6 = λ s. none;
  ntop6 = λ ws. [];
}

-- The address in front of " and more", of which String() shows a part.
abbrev in_text : View
in_text = record {
  text = four;
  behind = 32 ∷ b'a' ∷ b'n' ∷ b'd' ∷ 32 ∷ b'm' ∷ b'o' ∷ b'r' ∷ b'e' ∷ [];
}

-- An address of a number is not valid before its first String().
made_of_number : (ipv4_of_int 7).valid ≡ false
made_of_number = refl

three_words : (ipv6_of_range conversions (1 ∷ 2 ∷ 3 ∷ [])).valid ≡ false
unfolding ipv6_of_range
three_words = refl

in_text_string :
    (((in_text.text ≡ []) ⊎ (length (reach in_text) < 16))
      × (ipv4_of_view conversions in_text ≡ fault))
    ⊎ ((16 ≤ length (reach in_text))
        × ((h : Held ℕ) × (ipv4_of_view conversions in_text ≡ done h)
            × (h.addr ≡ 7)
            × (h.valid ≡ true)
            × (ipv4_string conversions h ≡ (c_str (take 16 (reach in_text)), h))))
unfolding same_bytes c_str
in_text_string = ipv4_string-ipv4_of_view conversions in_text 7 refl

number_string :
    (after : Held ℕ) × (ipv4_string conversions (ipv4_of_int 7) ≡ (four, after))
    × (after.valid ≡ true)
    × (after.addr ≡ 7)
    × (ipv4_string conversions after ≡ (four, after))
number_string = ipv4_string-ipv4_string conversions (ipv4_of_int 7) refl (
  (λ e. omega (arith, e)),
  (
    (λ e. omega (arith, e)),
    (
      (λ e. omega (arith, e)),
      (
        (λ e. omega (arith, e)),
        ((λ e. omega (arith, e)), ((λ e. omega (arith, e)), ((λ e. omega (arith, e)), tt))),
      ),
    ),
  ),
)
