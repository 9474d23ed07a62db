-- ===== src/Text/Laws.antt =====
-- Decimal digits stand for their number, and c_str() cuts at a NUL.
use dirty_net.Prelude.{
  ℕ, zero, suc, ◌+◌, ◌*◌, ◌-◌, ◌/◌, ◌%◌, ◌<◌, ◌≤◌, ◌≡◌, ◌≢◌, ◌∙◌, refl, ap, List, [], ◌∷◌, ◌++◌,
  arith, All, Bool-cases, inl, inr, ◌==◌, true, length,
}
use dirty_net.Text.{digits, to_string, c_str}

-- The number that digits stand for behind a number already read.
abbrev pub value_from : ℕ → List ℕ → ℕ
value_from acc [] = acc
value_from acc (d ∷ ds) = value_from (acc * 10 + (d - 48)) ds

abbrev pub IsDigit : ℕ → Type 0
IsDigit d = (48 ≤ d) × (d ≤ 57)

digits-value :
    (fuel n : ℕ) (rest : List ℕ) → n < fuel → value_from 0 (digits fuel n rest) ≡ value_from n rest
unfolding digits
digits-value zero n rest h = absurd (omega arith)
digits-value (suc fuel) n rest h =
    let front : n / 10 * 10 + (48 + n % 10 - 48) ≡ n = omega arith in
    elim (Bool-cases (n / 10 == 0)) [
      | inl e ↦
          let small : 0 * 10 + (48 + n % 10 - 48) ≡ n = ground arith in
          rw e (ap (λ t. value_from t rest) small)
      | inr e ↦ rw e (
          digits-value fuel (n / 10) ((48 + n % 10) ∷ rest) (ground arith)
          ∙ ap (λ t. value_from t rest) front)
    ]

-- to_string writes digits that stand for its argument.
pub to_string-value : (n : ℕ) → value_from 0 (to_string n) ≡ n
unfolding to_string
to_string-value n = digits-value (suc n) n [] (omega arith)

pub to_string_injective : (n m : ℕ) → to_string n ≡ to_string m → n ≡ m
to_string_injective n m e = cc (to_string-value n, to_string-value m, ap (value_from 0) e)

digits-All : (fuel n : ℕ) (rest : List ℕ) → All IsDigit rest → All IsDigit (digits fuel n rest)
unfolding digits
digits-All zero n rest h = h
digits-All (suc fuel) n rest h = elim (Bool-cases (n / 10 == 0)) [
  | inl e ↦ rw e (omega arith, h)
  | inr e ↦ rw e (digits-All fuel (n / 10) ((48 + n % 10) ∷ rest) (omega arith, h))
]

pub to_string-All : (n : ℕ) → All IsDigit (to_string n)
unfolding to_string
to_string-All n = digits-All (suc n) n [] tt

abbrev tens : ℕ → ℕ
tens zero = 1
tens (suc k) = 10 * tens k

length-digits :
    (fuel k n : ℕ) (rest : List ℕ)
    → n < tens (suc k)
    → length (digits fuel n rest) ≤ suc k + length rest
unfolding digits
length-digits zero k n rest h = omega arith
length-digits (suc fuel) zero n rest h =
    let e : (n / 10 == 0) ≡ true = ground arith in rw e (omega arith)
length-digits (suc fuel) (suc k) n rest h = elim (Bool-cases (n / 10 == 0)) [
  | inl e ↦ rw e (omega arith)
  | inr e ↦ rw e (omega (arith, length-digits fuel k (n / 10) ((48 + n % 10) ∷ rest) (omega arith)))
]

-- A number below 10^5 has five digits at most.
pub length-to_string : (n : ℕ) → n < 100000 → length (to_string n) ≤ 5
unfolding to_string
length-to_string n h = omega (arith, length-digits (suc n) 4 n [] (omega arith))

abbrev pub IsText : List ℕ → Type 0
IsText = All (λ b. b ≢ 0)

pub c_str-nul : (s more : List ℕ) → IsText s → c_str (s ++ (0 ∷ more)) ≡ s
unfolding c_str
c_str-nul [] more h = refl
c_str-nul (b ∷ bs) more h = ground (arith, c_str-nul bs more h.1)

pub c_str_text : (s : List ℕ) → IsText s → c_str s ≡ s
unfolding c_str
c_str_text [] h = refl
c_str_text (b ∷ bs) h = ground (arith, c_str_text bs h.1)
