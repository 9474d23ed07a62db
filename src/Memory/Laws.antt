-- ===== src/Memory/Laws.antt =====
-- Accesses within the bounds succeed.
use dirty_net.Prelude.{
  refl, [], ◌∷◌, true, ℕ, ◌+◌, ◌≤◌, ◌≡◌, List, ◌++◌, done, arith, length, take, drop,
}
use dirty_net.Memory.{same_bytes, read_at, write_at, erase_front}

module _ {ℓ} {A : Type ℓ} where
  pub read_at-done :
      (xs : List A) (offset n : ℕ)
      → offset + n ≤ length xs
      → read_at xs offset n ≡ done (take n (drop offset xs))
  unfolding read_at
  read_at-done xs offset n h = ground arith

  pub write_at-done :
      (xs : List A) (offset : ℕ) (source : List A)
      → offset + length source ≤ length xs
      → write_at xs offset source
        ≡ done (take offset xs ++ (source ++ drop (offset + length source) xs))
  unfolding write_at
  write_at-done xs offset source h = ground arith

  pub erase_front-done : (xs : List A) (n : ℕ) → n ≤ length xs → erase_front xs n ≡ done (drop n xs)
  unfolding erase_front
  erase_front-done xs n h = ground arith

pub same_bytes-eq : (xs ys : List ℕ) → same_bytes xs ys ≡ true → xs ≡ ys
unfolding same_bytes
same_bytes-eq [] [] e = refl
same_bytes-eq [] (y ∷ ys) e = cc
same_bytes-eq (x ∷ xs) [] e = cc
same_bytes-eq (x ∷ xs) (y ∷ ys) e = ground (arith, same_bytes-eq xs ys)

pub same_bytes_refl : (xs : List ℕ) → same_bytes xs xs ≡ true
unfolding same_bytes
same_bytes_refl [] = refl
same_bytes_refl (x ∷ xs) = ground (arith, same_bytes_refl xs)
