-- ===== src/Legacy/Util/Tests.antt =====
-- string_split and to_int on concrete texts.
use dirty_net.Prelude.{
  ℕ, ◌≡◌, ◌≢◌, ◌↔◌, refl, List, [], ◌∷◌, ◌++◌, none, some, arith, done, fault, All,
}
use dirty_net.Text.FromChars.{from_chars, scan, is_digit, in_range}
use dirty_net.Text.Laws.{value_from}
use dirty_net.Legacy.Util.{index_of, string_split, c_string, to_int}
use dirty_net.Legacy.Util.Split.{join, Without, string_split_iff}
use dirty_net.Legacy.Util.Number.{to_int-followed}

-- "1,,22"
abbrev numbers : List ℕ
numbers = b'1' ∷ b',' ∷ b',' ∷ b'2' ∷ b'2' ∷ []

numbers_split : string_split numbers b',' ≡ done ((b'1' ∷ []) ∷ [] ∷ (b'2' ∷ b'2' ∷ []) ∷ [])
unfolding string_split index_of
numbers_split = refl

-- The first piece of this text, read where it stands: the comma and the rest follow it.
first_piece : to_int 255 (b'1' ∷ []) (b',' ∷ b'2' ∷ 0 ∷ []) ≡ done none
unfolding to_int from_chars scan is_digit in_range c_string
first_piece = refl

abbrev pieces : List (List ℕ)
pieces = (b'1' ∷ []) ∷ [] ∷ (b'2' ∷ b'2' ∷ []) ∷ []

string_split_iff_example :
    ((found : List (List ℕ)) × (string_split numbers b',' ≡ done found))
    × ((string_split numbers b',' ≡ done pieces)
        ↔ ((pieces ≢ []) × (join b',' pieces ≡ numbers) × All (Without b',') pieces))
string_split_iff_example = string_split_iff numbers b',' pieces

three_followings :
    (to_int 255 (b'1' ∷ []) (0 ∷ []) ≡ done (some (value_from 0 (b'1' ∷ []))))
    × (to_int 255 (b'1' ∷ []) ((b'f' ∷ []) ++ (0 ∷ [])) ≡ done none)
    × (to_int 255 (b'1' ∷ []) [] ≡ fault)
three_followings =
    to_int-followed 255 b'1' [] (b'f' ∷ []) [] ((omega arith, omega arith), tt) (omega arith)
      ((λ e. omega (arith, e)), tt) (λ e. cc)
