-- ===== src/Legacy/VectorView.antt =====
-- archive/legacy-dirtynet/core/vector_view.hh: a part of a vector. The view holds a pointer into the vector's
-- memory, which is the place of the item that it points at; the items are those of the vector.
pub mod Items
pub mod Laws
pub mod Wrap
mod Tests
use dirty_net.Prelude.{
  ℕ, zero, suc, ◌+◌, ◌%◌, ◌^◌, Bool, true, false, Option, none, some, List, [], ◌∷◌, length, set,
  Run, done, fault, stuck, leb, ltb, ◌==◌, if◌then◌else◌, ◌>>=◌,
}

-- `_internal` is the null pointer in a view that was refused; `_begin` and `_end` follow from it.
pub record VectorView : Type 0 where
  pub view_length : ℕ
  pub internal : Option ℕ

-- An access of an item, through the vector or a pointer. One out of the vector's bounds is undefined.
unfoldable pub item {ℓ} : {A : Type ℓ} → List A → ℕ → Run A
item [] place = fault
item (x ∷ xs) zero = done x
item (x ∷ xs) (suc place) = item xs place

-- VectorView(vec, begin, length): begin + length is a size_t, and &vec[begin] evaluates vec[begin].
unfoldable pub vector_view {ℓ} : {A : Type ℓ} → List A → ℕ → ℕ → Run VectorView
vector_view vec begin n =
    if ltb (length vec) ((begin + n) % 2 ^ 64)
    then done (record { view_length = 0; internal = none })
    else (item vec begin >>= λ x. done (record { view_length = n; internal = some begin }))

-- _internal[index]
abbrev pub internal_at : Option ℕ → ℕ → Run ℕ
internal_at none index = fault
internal_at (some place) index = done (place + index)

-- get(index): a pointer, or the null pointer
unfoldable pub get : VectorView → ℕ → Run (Option ℕ)
get v index =
    if leb v.view_length index
    then done none
    else (internal_at v.internal index >>= λ place. done (some place))

-- at(index), which throws out of range: none
unfoldable pub at {ℓ} : {A : Type ℓ} → List A → VectorView → ℕ → Run (Option A)
at vec v index =
    if leb v.view_length index
    then done none
    else (internal_at v.internal index >>= λ place. item vec place >>= λ x. done (some x))

-- set(value, index): the vector behind it, and what it returns
unfoldable pub set_at {ℓ} : {A : Type ℓ} → List A → VectorView → A → ℕ → Run (List A × Bool)
set_at vec v value index =
    if leb v.view_length index
    then done (vec, false)
    else (internal_at v.internal index >>= λ place.
        item vec place >>= λ x. done (set vec place value, true))

-- What the iterators go over: from `_begin`, by ++, up to `_end`. `fuel` bounds the steps.
unfoldable pub walk {ℓ} : {A : Type ℓ} → ℕ → List A → ℕ → ℕ → Run (List A)
walk zero vec place end = if place == end then done [] else stuck
walk (suc fuel) vec place end =
    let rest = walk fuel vec (place + 1) end in
    if place == end then done [] else (item vec place >>= λ x. rest >>= λ xs. done (x ∷ xs))

abbrev pub bounds : Option ℕ → ℕ → ℕ × ℕ
bounds none n = (0, 0)
bounds (some place) n = (place, place + n)

unfoldable pub elements {ℓ} : {A : Type ℓ} → List A → VectorView → Run (List A)
unfolding walk
elements vec v =
    let (first, last) = bounds v.internal v.view_length in walk v.view_length vec first last
