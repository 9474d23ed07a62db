-- ===== src/Legacy/VectorView/Laws.antt =====
-- A view against the part of the vector that it is of.
use dirty_net.Prelude.{
  ℕ, ◌+◌, ◌%◌, ◌^◌, ◌≤◌, ◌<◌, ◌≡◌, refl, sym, ap, ◌∙◌, true, false, ◌&&◌, none, some, List, [],
  length, take, drop, length-take, length-drop, set, Run, ◌⊎◌, inl, inr, done, fault, leb, ltb,
  ◌==◌, if◌then◌else◌, arith,
}
use native.Mathlib.Decide.{dec_lt}
use dirty_net.Legacy.VectorView.{VectorView, vector_view, at, set_at, walk, elements}
use dirty_net.Legacy.VectorView.Items.{
  lookup, item-lookup, lookup-none, lookup-drop, lookup-take, lookup-set, drop-item, walk_lem,
  length-set, item_beyond,
}

abbrev pub whole_view : ℕ → ℕ → VectorView
whole_view begin n = record { view_length = n; internal = some begin }

module _ {ℓ} {A : Type ℓ} where
  -- The part of a vector that a view is of: nothing where it does not fit.
  unfoldable pub window : List A → ℕ → ℕ → List A
  window vec begin n = if leb (begin + n) (length vec) then take n (drop begin vec) else []

  -- The two kinds of view that the constructor makes, and where it reads out of bounds.
  data Made (vec : List A) (begin n : ℕ) : Run VectorView → Type ℓ where
    refused :
        length vec < begin + n
        → Made vec begin n (done (record { view_length = 0; internal = none }))
    outside : begin ≡ length vec → n ≡ 0 → Made vec begin n fault
    fits :
        begin < length vec → begin + n ≤ length vec → Made vec begin n (done (whole_view begin n))

  pub vector_view_inside :
      (vec : List A) (begin n : ℕ)
      → begin < length vec
      → (begin + n) % 2 ^ 64 ≤ length vec
      → vector_view vec begin n ≡ done (whole_view begin n)
  unfolding vector_view
  vector_view_inside vec begin n b l =
      let e : ltb (length vec) ((begin + n) % 2 ^ 64) ≡ false = ground (arith, l) in
      let (x, f, g) = drop-item vec begin b in rw e (rw f refl)

  vector_view-Made :
      (vec : List A) (begin n : ℕ) → begin + n < 2 ^ 64 → Made vec begin n (vector_view vec begin n)
  unfolding vector_view
  vector_view-Made vec begin n small =
      let whole : (begin + n) % 2 ^ 64 ≡ begin + n = omega (arith, small) in
      elim (dec_lt (length vec) (begin + n)) [
        | yes l ↦
            let e : ltb (length vec) (begin + n) ≡ true = ground (arith, l) in
            rw (whole, e) (refused l)
        | no l ↦ elim (dec_lt begin (length vec)) [
          | yes b ↦
              rw (vector_view_inside vec begin n b (omega (arith, whole, l)))
                (fits b (omega (arith, l)))
          | no b ↦
              let e : ltb (length vec) (begin + n) ≡ false = ground (arith, l) in
              rw (whole, e)
                (rw (item_beyond vec begin (omega (arith, b)))
                  (outside (omega (arith, l, b)) (omega (arith, l, b))))
        ]
      ]

  -- The behaviour that a view has as if it were a vector of its own.
  pub record Shows (vec : List A) (v : VectorView) (items : List A) : Type ℓ where
    pub reads : (i : ℕ) → at vec v i ≡ done (lookup items i)
    pub iterates : elements vec v ≡ done items
    pub writes :
        (i j : ℕ) (a : A)
        → (after : List A) × (set_at vec v a i ≡ done (after, ltb i (length items)))
          × (length after ≡ length vec)
          × (at after v j
              ≡ done (if ltb i (length items) && i == j then some a else lookup items j))

  pub at_whole :
      (vec : List A) (begin n i : ℕ)
      → begin + n ≤ length vec
      → at vec (whole_view begin n) i ≡ done (lookup (take n (drop begin vec)) i)
  unfolding at
  at_whole vec begin n i l = elim (dec_lt i n) [
    | yes h ↦
        let e : leb n i ≡ false = ground (arith, h) in
        rw e (
          item-lookup vec (begin + i) (omega (arith, h, l))
          ∙ ap done (sym (lookup-take (drop begin vec) n i h ∙ lookup-drop vec begin i)))
    | no h ↦
        let e : leb n i ≡ true = ground (arith, h) in
        rw e (
          ap done (
            sym (
              lookup-none (take n (drop begin vec)) i
                (omega (arith, h, length-take n (drop begin vec))))))
  ]

  set_at_whole :
      (vec : List A) (begin n i : ℕ) (a : A)
      → begin + n ≤ length vec
      → i < n
      → set_at vec (whole_view begin n) a i ≡ done (set vec (begin + i) a, true)
  unfolding set_at
  set_at_whole vec begin n i a l h =
      let e : leb n i ≡ false = ground (arith, h) in
      let (x, f, g) = drop-item vec (begin + i) (omega (arith, h, l)) in rw e (rw f refl)

  set_at_beyond :
      (vec : List A) (begin n i : ℕ) (a : A)
      → n ≤ i
      → set_at vec (whole_view begin n) a i ≡ done (vec, false)
  unfolding set_at
  set_at_beyond vec begin n i a h = let e : leb n i ≡ true = ground (arith, h) in rw e refl

  -- Writing an item of the window, and reading any.
  window_set :
      (vec : List A) (begin n i j : ℕ) (a : A)
      → begin + n ≤ length vec
      → i < n
      → lookup (take n (drop begin (set vec (begin + i) a))) j
        ≡ (if i == j then some a else lookup (take n (drop begin vec)) j)
  window_set vec begin n i j a l h =
      let after : List A = set vec (begin + i) a in
      elim (dec_lt j n) [
        | yes k ↦
            let e : (begin + i == begin + j) ≡ (i == j) = ground arith in
            lookup-take (drop begin after) n j k
            ∙ lookup-drop after begin j
            ∙ lookup-set vec (begin + i) (begin + j) a (omega (arith, h, l))
            ∙ rw e (
                ap (λ o. if i == j then some a else o)
                  (sym (lookup-take (drop begin vec) n j k ∙ lookup-drop vec begin j)))
        | no k ↦
            let e : (i == j) ≡ false = ground (arith, h, k) in
            rw e (
              lookup-none (take n (drop begin after)) j
                (omega (arith, k, length-take n (drop begin after)))
              ∙ sym (
                  lookup-none (take n (drop begin vec)) j
                    (omega (arith, k, length-take n (drop begin vec)))))
      ]

  writes_whole :
      (vec : List A) (begin n i j : ℕ) (a : A)
      → begin + n ≤ length vec
      → (after : List A) × (set_at vec (whole_view begin n) a i ≡ done (after, ltb i n))
        × (length after ≡ length vec)
        × (at after (whole_view begin n) j
            ≡ done (if ltb i n && i == j then some a else lookup (take n (drop begin vec)) j))
  writes_whole vec begin n i j a l = elim (dec_lt i n) [
    | yes h ↦
        let e : ltb i n ≡ true = ground (arith, h) in
        let after : List A = set vec (begin + i) a in
        rw e (
          after,
          set_at_whole vec begin n i a l h,
          length-set vec (begin + i) a,
          at_whole after begin n j (omega (arith, l, length-set vec (begin + i) a))
              ∙ ap done (window_set vec begin n i j a l h),
        )
    | no h ↦
        let e : ltb i n ≡ false = ground (arith, h) in
        rw e (vec, set_at_beyond vec begin n i a (omega (arith, h)), refl, at_whole vec begin n j l)
  ]

  refused-Shows :
      (vec : List A) (begin n : ℕ)
      → length vec < begin + n
      → Shows vec (record { view_length = 0; internal = none }) (window vec begin n)
  unfolding at set_at elements window walk lookup
  refused-Shows vec begin n l =
      let e : leb (begin + n) (length vec) ≡ false = ground (arith, l) in
      let past : (i : ℕ) → leb 0 i ≡ true = λ i. ground arith in
      let none_below : (i : ℕ) → ltb i 0 ≡ false = λ i. ground arith in
      rw e (record {
        reads = λ i. rw (past i) refl;
        iterates = refl;
        writes =
            λ i j a. (vec, rw (past i, none_below i) refl, refl, rw (past j, none_below i) refl);
      })

  whole_view-Shows :
      (vec : List A) (begin n : ℕ)
      → begin + n ≤ length vec
      → Shows vec (whole_view begin n) (window vec begin n)
  unfolding elements window
  whole_view-Shows vec begin n l =
      let e : leb (begin + n) (length vec) ≡ true = ground (arith, l) in
      let size : length (take n (drop begin vec)) ≡ n =
        omega (arith, l, length-take n (drop begin vec), length-drop begin vec) in
      rw e (record {
        reads = λ i. at_whole vec begin n i l;
        iterates = walk_lem n vec begin (begin + n) refl l;
        writes = λ i j a. rw size (writes_whole vec begin n i j a l);
      })

  Made-Shows :
      (vec : List A) (begin n : ℕ) {r : Run VectorView}
      → Made vec begin n r
      → (((begin ≡ length vec) × (n ≡ 0)) × (r ≡ fault))
        ⊎ ((¬ ((begin ≡ length vec) × (n ≡ 0)))
            × ((v : VectorView) × (r ≡ done v) × Shows vec v (window vec begin n)))
  Made-Shows vec begin n (refused l) =
      inr ((λ e. omega (arith, l, e.0, e.1)), (_, refl, refused-Shows vec begin n l))
  Made-Shows vec begin n (outside b z) = inl ((b, z), refl)
  Made-Shows vec begin n (fits b l) =
      inr ((λ e. omega (arith, b, e.0)), (_, refl, whole_view-Shows vec begin n l))

  -- To make a view of `n` items from `begin` on, where begin + n is below 2^64, reads out of bounds
  -- if the view is of nothing at the vector's very end, and only then. Every other view behaves as if
  -- it were a vector of its own: at() gives the items of that part of the vector and throws behind
  -- them, the iterators go over these items, set() writes an item of them and refuses any other place,
  -- and every access is inside the vector. If the part does not fit into the vector it is empty.
  pub vector_view-Shows :
      (vec : List A) (begin n : ℕ)
      → begin + n < 2 ^ 64
      → (((begin ≡ length vec) × (n ≡ 0)) × (vector_view vec begin n ≡ fault))
        ⊎ ((¬ ((begin ≡ length vec) × (n ≡ 0)))
            × ((v : VectorView) × (vector_view vec begin n ≡ done v)
                × Shows vec v (window vec begin n)))
  vector_view-Shows vec begin n small = Made-Shows vec begin n (vector_view-Made vec begin n small)
