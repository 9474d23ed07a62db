-- ===== src/UdpMany/ParsePort.antt =====
-- parsePort, which unicast-client/main.cc and multicast-client/main.cc both define.
use dirty_net.Prelude.{
  ℕ, ◌-◌, ◌%◌, ◌^◌, ◌<◌, ◌≡◌, ◌≢◌, ◌↔◌, refl, sym, ap, ◌∙◌, ◌||◌, Option, none, some, List, [], ◌∷◌,
  arith, ltb, ◌==◌, if◌then◌else◌, All,
}
use dirty_net.ByteOrder.{ByteOrder, htons}
use dirty_net.Text.{to_string}
use dirty_net.Text.Laws.{value_from, IsDigit, to_string-value, to_string-All}
use dirty_net.Text.FromChars.{
  FromChars, Errc, no_error, invalid_argument, result_out_of_range, from_chars, from_chars_digits,
  from_chars_whole,
}

-- The tests behind from_chars.
pub accept_port : ByteOrder → FromChars → Errc → List ℕ → Option ℕ
accept_port o r no_error [] =
    if (r.value == 0) || ltb (2 ^ 16 - 1) r.value then none else some (htons o (r.value % 2 ^ 16))
accept_port o r _ _ = none

-- parsePort: `port` is written only where it returns true. `unsigned` has 32 bits.
unfoldable pub parse_port : ByteOrder → List ℕ → Option ℕ
unfolding accept_port
parse_port o value = let r = from_chars (2 ^ 32 - 1) 0 value in accept_port o r r.ec r.rest

accept_port-some :
    (o : ByteOrder) (r : FromChars) (e : Errc) (rest : List ℕ) (p : ℕ)
    → accept_port o r e rest ≡ some p
    → (e ≡ no_error) × (rest ≡ []) × (0 < r.value) × (r.value < 2 ^ 16) × (p ≡ htons o r.value)
unfolding accept_port
accept_port-some o r no_error [] p h =
    let whole : r.value < 65536 → r.value % 65536 ≡ r.value = λ l. omega arith in
    ground (arith, whole)
accept_port-some o r no_error (c ∷ s) p h = cc
accept_port-some o r invalid_argument rest p h = cc
accept_port-some o r result_out_of_range rest p h = cc

accept_port_in_range :
    (o : ByteOrder) (r : FromChars)
    → 0 < r.value
    → r.value < 2 ^ 16
    → accept_port o r no_error [] ≡ some (htons o r.value)
unfolding accept_port
accept_port_in_range o r h k =
    let whole : r.value % 65536 ≡ r.value = omega arith in ground (arith, whole)

accepted :
    (o : ByteOrder) (s : List ℕ)
    → s ≢ []
    → All IsDigit s
    → 0 < value_from 0 s
    → value_from 0 s < 2 ^ 16
    → parse_port o s ≡ some (htons o (value_from 0 s))
unfolding parse_port
accepted o [] n d l h = absurd (n refl)
accepted o (c ∷ s) n d l h =
    rw (from_chars_digits (2 ^ 32 - 1) 0 c s d (omega arith)) (
      accept_port_in_range o (record { value = value_from 0 (c ∷ s); rest = []; ec = no_error }) l
        h)

-- parsePort accepts exactly the non-empty texts of digits, leading zeros included, whose number is from
-- 1 to 65535, and gives this number in network order: nothing wraps around.
pub parse_port_iff :
    (o : ByteOrder) (s : List ℕ) (p : ℕ)
    → (parse_port o s ≡ some p) ↔ (
        (s ≢ [])
        × All IsDigit s
        × (0 < value_from 0 s)
        × (value_from 0 s < 2 ^ 16)
        × (p ≡ htons o (value_from 0 s)))
parse_port_iff o s p = (there, λ h. accepted o s h.0 h.1 h.2 h.3 ∙ ap some (sym h.4))
  where
    there :
        parse_port o s ≡ some p
        → (s ≢ [])
          × All IsDigit s
          × (0 < value_from 0 s)
          × (value_from 0 s < 2 ^ 16)
          × (p ≡ htons o (value_from 0 s))
    there e =
        let r : FromChars = from_chars (2 ^ 32 - 1) 0 s in
        let a = accept_port-some o r r.ec r.rest p (unfold parse_port in e) in
        let w = from_chars_whole (2 ^ 32 - 1) 0 s a.0 a.1 in
        (w.0, w.1, omega (arith, a.2, w.3), omega (arith, a.3, w.3), a.4 ∙ ap (htons o) w.3)

-- A port that a user writes as std::to_string writes it is read back.
pub parse_port-to_string :
    (o : ByteOrder) (p : ℕ) → 0 < p → p < 2 ^ 16 → parse_port o (to_string p) ≡ some (htons o p)
parse_port-to_string o p l h =
    let number : value_from 0 (to_string p) ≡ p = to_string-value p in
    accepted o (to_string p) (λ e. absurd (omega (arith, number, ap (value_from 0) e)))
      (to_string-All p) (omega (arith, number)) (omega (arith, number))
    ∙ ap (λ n. some (htons o n)) number
