-- ===== src/Legacy/VectorView/Items.antt =====
-- The items of a list by their places.
use dirty_net.Prelude.{
  ℕ, zero, suc, ◌+◌, ◌≤◌, ◌<◌, ◌≡◌, refl, ap, ◌∙◌, true, false, Option, none, some, List, [], ◌∷◌,
  length, take, drop, set, done, fault, ◌==◌, if◌then◌else◌, ◌>>=◌, arith,
}
use dirty_net.Legacy.VectorView.{item, walk}

module _ {ℓ} {A : Type ℓ} where
  -- The item at a place, if there is one
  unfoldable pub lookup : List A → ℕ → Option A
  lookup [] i = none
  lookup (x ∷ xs) zero = some x
  lookup (x ∷ xs) (suc i) = lookup xs i

  pub item-lookup :
      (xs : List A) (i : ℕ)
      → i < length xs
      → (item xs i >>= λ x. done (some x)) ≡ done (lookup xs i)
  unfolding item lookup
  item-lookup [] i h = absurd (omega (arith, h))
  item-lookup (x ∷ xs) zero h = refl
  item-lookup (x ∷ xs) (suc i) h = item-lookup xs i (omega (arith, h))

  pub lookup-none : (xs : List A) (i : ℕ) → length xs ≤ i → lookup xs i ≡ none
  unfolding lookup
  lookup-none [] i h = refl
  lookup-none (x ∷ xs) zero h = absurd (omega (arith, h))
  lookup-none (x ∷ xs) (suc i) h = lookup-none xs i (omega (arith, h))

  pub lookup-drop : (xs : List A) (n i : ℕ) → lookup (drop n xs) i ≡ lookup xs (n + i)
  unfolding lookup
  lookup-drop xs zero i = ap (lookup xs) (omega arith)
  lookup-drop [] (suc n) i = refl
  lookup-drop (x ∷ xs) (suc n) i =
      lookup-drop xs n i ∙ ap (lookup (x ∷ xs)) {x = suc (n + i)} (omega arith)

  pub lookup-take : (xs : List A) (n i : ℕ) → i < n → lookup (take n xs) i ≡ lookup xs i
  unfolding lookup
  lookup-take xs zero i h = absurd (omega (arith, h))
  lookup-take [] (suc n) i h = refl
  lookup-take (x ∷ xs) (suc n) zero h = refl
  lookup-take (x ∷ xs) (suc n) (suc i) h = lookup-take xs n i (omega (arith, h))

  pub lookup-set :
      (xs : List A) (i j : ℕ) (a : A)
      → i < length xs
      → lookup (set xs i a) j ≡ (if i == j then some a else lookup xs j)
  unfolding lookup
  lookup-set [] i j a h = absurd (omega (arith, h))
  lookup-set (x ∷ xs) zero zero a h = refl
  lookup-set (x ∷ xs) zero (suc j) a h = let e : (0 == suc j) ≡ false = ground arith in rw e refl
  lookup-set (x ∷ xs) (suc i) zero a h = let e : (suc i == 0) ≡ false = ground arith in rw e refl
  lookup-set (x ∷ xs) (suc i) (suc j) a h =
      let e : (suc i == suc j) ≡ (i == j) = ground arith in
      rw e (lookup-set xs i j a (omega (arith, h)))

  pub drop-item :
      (vec : List A) (place : ℕ)
      → place < length vec
      → (x : A) × (item vec place ≡ done x) × (drop place vec ≡ x ∷ drop (place + 1) vec)
  unfolding item
  drop-item [] place h = absurd (omega (arith, h))
  drop-item (x ∷ xs) zero h = (x, refl, refl)
  drop-item (x ∷ xs) (suc place) h =
      let (y, a, b) = drop-item xs place (omega (arith, h)) in
      (y, a, b ∙ ap (λ k. y ∷ drop k (x ∷ xs)) {x = suc (place + 1)} (omega arith))

  pub walk_lem :
      (n : ℕ) (vec : List A) (place end : ℕ)
      → end ≡ place + n
      → end ≤ length vec
      → walk n vec place end ≡ done (take n (drop place vec))
  unfolding walk
  walk_lem zero vec place end e h =
      let same : (place == end) ≡ true = ground (arith, e) in rw same refl
  walk_lem (suc n) vec place end e h =
      let differ : (place == end) ≡ false = ground (arith, e) in
      let (x, a, b) = drop-item vec place (omega (arith, e, h)) in
      rw differ (rw (a, b) (rw (walk_lem n vec (place + 1) end (omega (arith, e)) h) refl))

  pub length-set : (xs : List A) (i : ℕ) (a : A) → length (set xs i a) ≡ length xs
  length-set [] i a = refl
  length-set (x ∷ xs) zero a = refl
  length-set (x ∷ xs) (suc i) a = ap suc (length-set xs i a)

  pub item_beyond : (xs : List A) (i : ℕ) → length xs ≤ i → item xs i ≡ fault
  unfolding item
  item_beyond [] i h = refl
  item_beyond (x ∷ xs) zero h = absurd (omega (arith, h))
  item_beyond (x ∷ xs) (suc i) h = item_beyond xs i (omega (arith, h))
