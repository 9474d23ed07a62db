-- ===== src/Text.antt =====
-- What the sources use of the C++ library on text: std::to_string of an unsigned number, and c_str().
-- A std::string is the list of its bytes.
pub mod Laws
pub mod FromChars
use dirty_net.Prelude.{ℕ, zero, suc, ◌+◌, ◌/◌, ◌%◌, List, [], ◌∷◌, ◌==◌, if◌then◌else◌}

-- The decimal digits of `n` in front of `rest`, by division; `fuel` bounds the digits.
unfoldable pub digits : ℕ → ℕ → List ℕ → List ℕ
digits zero n rest = rest
digits (suc fuel) n rest =
    let digit = (48 + n % 10) ∷ rest in
    let more = digits fuel (n / 10) digit in if n / 10 == 0 then digit else more

-- std::to_string(n). A number has no more digits than its value and one.
unfoldable pub to_string : ℕ → List ℕ
unfolding digits
to_string n = digits (suc n) n []

-- What a reader of text.c_str() sees: the bytes up to the first NUL.
unfoldable pub c_str : List ℕ → List ℕ
c_str [] = []
c_str (b ∷ bs) = let rest = c_str bs in if b == 0 then [] else b ∷ rest
