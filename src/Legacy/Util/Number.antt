-- ===== src/Legacy/Util/Number.antt =====
-- to_int on a view into a longer text.
use dirty_net.Prelude.{
  ℕ, ◌≤◌, ◌≡◌, ◌≢◌, refl, ◌∙◌, false, none, some, List, [], ◌∷◌, ◌++◌, arith, done, fault, All,
  ◌==◌, ◌>>=◌,
}
use dirty_net.Text.Laws.{value_from, IsDigit, IsText}
use dirty_net.Text.FromChars.{no_error, from_chars_digits}
use dirty_net.Legacy.Util.{c_string, accept_int, to_int}

c_string_text : (s more : List ℕ) → IsText s → c_string (s ++ (0 ∷ more)) ≡ done s
unfolding c_string
c_string_text [] more h = refl
c_string_text (c ∷ s) more h =
    let nonzero : (c == 0) ≡ false = ground (arith, h.0) in
    rw nonzero (rw (c_string_text s more h.1) refl)

read_digits :
    (max c : ℕ) (s memory : List ℕ)
    → All IsDigit (c ∷ s)
    → value_from 0 (c ∷ s) ≤ max
    → to_int max (c ∷ s) memory ≡ (
        c_string memory >>= λ text. done (
          accept_int
            (record { value = value_from 0 (c ∷ s); rest = []; ec = no_error })
            no_error
            text))
unfolding to_int
read_digits max c s memory h fits = rw (from_chars_digits max 0 c s h fits) refl

-- A view that is a decimal number in the range of its type is read as this number if a NUL follows it. If a text
-- follows, up to some NUL, the number is refused; and if no byte of memory follows, to_int reads past its end.
pub to_int-followed :
    (max c : ℕ) (s text more : List ℕ)
    → All IsDigit (c ∷ s)
    → value_from 0 (c ∷ s) ≤ max
    → IsText text
    → text ≢ []
    → (to_int max (c ∷ s) (0 ∷ more) ≡ done (some (value_from 0 (c ∷ s))))
      × (to_int max (c ∷ s) (text ++ (0 ∷ more)) ≡ done none)
      × (to_int max (c ∷ s) [] ≡ fault)
unfolding c_string accept_int
to_int-followed max c s [] more h fits t n = absurd (n refl)
to_int-followed max c s (b ∷ text) more h fits t n = (
  read_digits max c s (0 ∷ more) h fits,
  read_digits max c s ((b ∷ text) ++ (0 ∷ more)) h fits ∙ rw (c_string_text (b ∷ text) more t) refl,
  read_digits max c s [] h fits,
)
