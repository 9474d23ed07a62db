-- ===== src/Text/FromChars.antt =====
-- What the sources use of std::from_chars: an unsigned type, base ten. Neither a sign nor white space
-- is taken, and on an error the value keeps what it held before.
use dirty_net.Prelude.{
  ℕ, ◌+◌, ◌-◌, ◌*◌, ◌≤◌, ◌≡◌, ◌≢◌, refl, ap, ◌∙◌, Bool, true, ◌&&◌, List, [], ◌∷◌, arith, leb,
  if◌then◌else◌, All, Bool-cases, inl, inr,
}
use dirty_net.Text.Laws.{value_from, IsDigit}

-- std::errc
pub data Errc : Type 0 where
  no_error invalid_argument result_out_of_range : Errc

-- `rest` is the text from the returned pointer on.
pub record FromChars : Type 0 where
  pub value : ℕ
  pub rest : List ℕ
  pub ec : Errc

unfoldable pub is_digit : ℕ → Bool
is_digit c = leb 48 c && leb c 57

-- The digits in front, as a number behind `acc`, and what follows them.
unfoldable pub scan : ℕ → List ℕ → ℕ × List ℕ
unfolding is_digit
scan acc [] = (acc, [])
scan acc (c ∷ s) =
    let more = scan (acc * 10 + (c - 48)) s in if is_digit c then more else (acc, c ∷ s)

-- `max` is the type's largest value.
unfoldable pub in_range : ℕ → ℕ → ℕ × List ℕ → FromChars
in_range max held (v, rest) =
    if leb v max
    then record { value = v; rest = rest; ec = no_error }
    else record { value = held; rest = rest; ec = result_out_of_range }

unfoldable pub from_chars : ℕ → ℕ → List ℕ → FromChars
from_chars max held [] = record { value = held; rest = []; ec = invalid_argument }
from_chars max held (c ∷ s) =
    if is_digit c
    then in_range max held (scan 0 (c ∷ s))
    else record { value = held; rest = c ∷ s; ec = invalid_argument }

pub is_digit-true : (c : ℕ) → IsDigit c → is_digit c ≡ true
unfolding is_digit
is_digit-true c h = ground arith

pub is_digit-IsDigit : (c : ℕ) → is_digit c ≡ true → IsDigit c
unfolding is_digit
is_digit-IsDigit c e = ground arith

-- Digits are all read, and the reading stops in front of what is no digit.
pub scan_digits : (acc : ℕ) (s : List ℕ) → All IsDigit s → scan acc s ≡ (value_from acc s, [])
unfolding scan
scan_digits acc [] h = refl
scan_digits acc (c ∷ s) h = rw (is_digit-true c h.0) (scan_digits (acc * 10 + (c - 48)) s h.1)

pub scan_whole : (acc : ℕ) (s : List ℕ) → (scan acc s).1 ≡ [] → All IsDigit s
unfolding scan
scan_whole acc [] e = tt
scan_whole acc (c ∷ s) e = elim (Bool-cases (is_digit c)) [
  | inl d ↦ (is_digit-IsDigit c d, scan_whole (acc * 10 + (c - 48)) s (rw d at e))
  | inr d ↦ absurd (cc (rw d at e))
]

in_range-fits :
    (max held v : ℕ)
    → v ≤ max
    → in_range max held (v, []) ≡ record { value = v; rest = []; ec = no_error }
unfolding in_range
in_range-fits max held v h = ground arith

in_range-no_error :
    (max held : ℕ) (r : ℕ × List ℕ)
    → (in_range max held r).ec ≡ no_error
    → (r.0 ≤ max) × ((in_range max held r).value ≡ r.0) × ((in_range max held r).rest ≡ r.1)
unfolding in_range
in_range-no_error max held (v, rest) e = ground arith

-- A non-empty text of digits whose number is in range is read as this number.
pub from_chars_digits :
    (max held c : ℕ) (s : List ℕ)
    → All IsDigit (c ∷ s)
    → value_from 0 (c ∷ s) ≤ max
    → from_chars max held (c ∷ s)
      ≡ record { value = value_from 0 (c ∷ s); rest = []; ec = no_error }
unfolding from_chars
from_chars_digits max held c s h fits =
    rw (is_digit-true c h.0)
      (rw (scan_digits 0 (c ∷ s) h) (in_range-fits max held (value_from 0 (c ∷ s)) fits))

-- Conversely, a text that is read to its end without an error is of this kind.
pub from_chars_whole :
    (max held : ℕ) (s : List ℕ)
    → (from_chars max held s).ec ≡ no_error
    → (from_chars max held s).rest ≡ []
    → (s ≢ [])
      × All IsDigit s
      × (value_from 0 s ≤ max)
      × ((from_chars max held s).value ≡ value_from 0 s)
unfolding from_chars
from_chars_whole max held [] e r = absurd (cc)
from_chars_whole max held (c ∷ s) e r = elim (Bool-cases (is_digit c)) [
  | inl d ↦
      let t = in_range-no_error max held (scan 0 (c ∷ s)) (rw d at e) in
      let all_digits : All IsDigit (c ∷ s) = scan_whole 0 (c ∷ s) (cc (t.2, rw d at r)) in
      let number : (scan 0 (c ∷ s)).0 ≡ value_from 0 (c ∷ s) =
        ap (λ x. x.0) (scan_digits 0 (c ∷ s) all_digits) in
      (λ x. cc, all_digits, omega (arith, t.0, number), rw d (t.1 ∙ number))
  | inr d ↦ absurd (cc (rw d at e))
]
