-- ===== src/Memory.antt =====
-- Accesses to a contiguous block of memory (a std::span, std::vector or std::string). C++ leaves an
-- access out of bounds undefined: here it is a `fault`.
pub mod Laws
use dirty_net.Prelude.{
  Bool, true, false, ◌&&◌, [], ◌∷◌, ◌==◌, ℕ, ◌+◌, ◌-◌, List, ◌++◌, Run, done, fault, length, take,
  drop, replicate, leb, if◌then◌else◌,
}

module _ {ℓ} {A : Type ℓ} where
  -- The `n` items from `offset` on: the source of a memcpy, or of std::string(pointer, n).
  unfoldable pub read_at : List A → ℕ → ℕ → Run (List A)
  read_at xs offset n =
      if leb (offset + n) (length xs) then done (take n (drop offset xs)) else fault

  -- memcpy(xs.data() + offset, source, source.size())
  unfoldable pub write_at : List A → ℕ → List A → Run (List A)
  write_at xs offset source =
      if leb (offset + length source) (length xs)
      then done (take offset xs ++ (source ++ drop (offset + length source) xs))
      else fault

  -- xs.erase(xs.begin(), xs.begin() + n)
  unfoldable pub erase_front : List A → ℕ → Run (List A)
  erase_front xs n = if leb n (length xs) then done (drop n xs) else fault

-- xs.resize(n) on bytes: cut, or filled up with zeros.
unfoldable pub resize : List ℕ → ℕ → List ℕ
resize xs n = take n xs ++ replicate (n - length xs) 0

-- memcmp(a, b, n) == 0 on two blocks of the same size; operator== of two std::strings
unfoldable pub same_bytes : List ℕ → List ℕ → Bool
same_bytes [] [] = true
same_bytes (a ∷ xs) (b ∷ ys) = a == b && same_bytes xs ys
same_bytes _ _ = false
