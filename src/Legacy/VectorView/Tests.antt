-- ===== src/Legacy/VectorView/Tests.antt =====
-- A view of three of five numbers, one of nothing at their end, and one whose bounds wrap.
use dirty_net.Prelude.{ℕ, ◌≡◌, ◌⊎◌, refl, List, [], ◌∷◌, length, done, fault, arith}
use dirty_net.Legacy.VectorView.{VectorView, vector_view, item}
use dirty_net.Legacy.VectorView.Laws.{whole_view, window, Shows, vector_view-Shows}

abbrev numbers : List ℕ
numbers = 10 ∷ 11 ∷ 12 ∷ 13 ∷ 14 ∷ []

vector_view-Shows_example :
    (((1 ≡ length numbers) × (◌≡◌ {A = ℕ} 3 0)) × (vector_view numbers 1 3 ≡ fault))
    ⊎ ((¬ ((1 ≡ length numbers) × (◌≡◌ {A = ℕ} 3 0)))
        × ((v : VectorView) × (vector_view numbers 1 3 ≡ done v)
            × Shows numbers v (window numbers 1 3)))
vector_view-Shows_example = vector_view-Shows numbers 1 3 (omega arith)

accepted : vector_view numbers 1 3 ≡ done (whole_view 1 3)
unfolding vector_view item
accepted = refl

at_the_end : vector_view numbers 5 0 ≡ fault
unfolding vector_view item
at_the_end = refl
