-- ===== src/Legacy/Util.antt =====
-- archive/legacy-dirtynet/core/util.hh and util.cc.
pub mod Split
pub mod Number
mod Tests
use dirty_net.Prelude.{
  ℕ, zero, suc, ◌+◌, ◌-◌, Option, none, some, List, [], ◌∷◌, ◌++◌, Run, done, fault, stuck, length,
  take, drop, ◌==◌, if◌then◌else◌, ◌>>=◌,
}
use dirty_net.Text.FromChars.{FromChars, Errc, no_error, from_chars}

-- The first place of a byte
abbrev later : Option ℕ → Option ℕ
later none = none
later (some i) = some (suc i)

unfoldable pub index_of : ℕ → List ℕ → Option ℕ
index_of c [] = none
index_of c (b ∷ bs) = let rest = index_of c bs in if b == c then some 0 else later rest

-- A place found from `pos` on; npos is none.
abbrev pub behind : ℕ → Option ℕ → Option ℕ
behind pos none = none
behind pos (some i) = some (pos + i)

-- str.find_first_of(delim, pos)
abbrev pub find_first_of : List ℕ → ℕ → ℕ → Option ℕ
find_first_of str delim pos = behind pos (index_of delim (drop pos str))

-- The loop of string_split, from `start` on, and the piece behind it. substr takes what there is.
pub split_loop : ℕ → List ℕ → ℕ → ℕ → Option ℕ → List (List ℕ) → Run (List (List ℕ))
split_loop zero str delim start next strs = stuck
split_loop (suc fuel) str delim start none strs = done (strs ++ (drop start str ∷ []))
split_loop (suc fuel) str delim start (some next) strs =
    split_loop fuel str delim (next + 1) (find_first_of str delim (next + 1))
      (strs ++ (take (next - start) (drop start str) ∷ []))

unfoldable pub string_split : List ℕ → ℕ → Run (List (List ℕ))
unfolding split_loop
string_split str delim = split_loop (suc (length str)) str delim 0 (find_first_of str delim 0) []

-- find_end_char(r, endChar)
abbrev pub place_in : List ℕ → Option ℕ → ℕ
place_in r none = length r
place_in r (some i) = i

unfoldable pub find_end_char : List ℕ → ℕ → ℕ
find_end_char r end_char = place_in r (index_of end_char r)

-- What a reader of a C string finds in the memory from its pointer on. Without a NUL it runs out of it.
unfoldable pub c_string : List ℕ → Run (List ℕ)
c_string [] = fault
c_string (b ∷ bs) =
    let rest = c_string bs in if b == 0 then done [] else (do text ← rest; done (b ∷ text))

-- to_int for an unsigned type whose largest value is `max`. `memory` is what stands behind the view: both
-- the output of `ptr` and strlen(ptr) read on to a NUL.
pub accept_int : FromChars → Errc → List ℕ → Option ℕ
accept_int r no_error [] = some r.value
accept_int r _ _ = none

unfoldable pub to_int : ℕ → List ℕ → List ℕ → Run (Option ℕ)
unfolding accept_int
to_int max str memory =
    let r = from_chars max 0 str in
    (do text ← c_string (r.rest ++ memory); done (accept_int r r.ec text))
