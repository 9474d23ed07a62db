-- ===== src/Legacy/Util/Split.antt =====
-- string_split against joining, and find_end_char against c_str.
use dirty_net.Prelude.{
  ℕ, zero, suc, ◌+◌, ◌-◌, ◌<◌, ◌≡◌, ◌≢◌, ◌↔◌, inl, inr, refl, sym, ap, ◌∙◌, true, false, Bool-cases,
  append_assoc, Option-cases, none, some, List, [], ◌∷◌, ◌++◌, arith, done, length, take, drop,
  drop_all, length-drop, All, ◌==◌, if◌then◌else◌, ==_iff,
}
use dirty_net.Text.{c_str}
use dirty_net.Legacy.Util.{
  index_of, find_first_of, split_loop, string_split, place_in, find_end_char,
}

-- The pieces of a text, by its first byte.
push : ℕ → List (List ℕ) → List (List ℕ)
push c [] = (c ∷ []) ∷ []
push c (p ∷ ps) = (c ∷ p) ∷ ps

split : ℕ → List ℕ → List (List ℕ)
unfolding push
split d [] = [] ∷ []
split d (c ∷ s) = let rest = split d s in if c == d then [] ∷ rest else push c rest

unfoldable pub join : ℕ → List (List ℕ) → List ℕ
join d [] = []
join d (p ∷ []) = p
join d (p ∷ q ∷ ps) = p ++ (d ∷ join d (q ∷ ps))

abbrev pub Without : ℕ → List ℕ → Type 0
Without d p = All (λ c. c ≢ d) p

-- Where the first delimiter is, in terms of the pieces.
data Found (d : ℕ) (s : List ℕ) : Type 0 where
  nowhere : index_of d s ≡ none → split d s ≡ s ∷ [] → Found d s
  at :
      (i : ℕ)
      → index_of d s ≡ some i
      → split d s ≡ take i s ∷ split d (drop (suc i) s)
      → i < length s
      → Found d s

found : (d : ℕ) (s : List ℕ) → Found d s
unfolding index_of split push
found d [] = nowhere refl refl
found d (c ∷ s) = elim (Bool-cases (c == d)) [
  | inl e ↦ at 0 (rw e refl) (rw e refl) (omega arith)
  | inr e ↦ elim (found d s) [
    | nowhere a b ↦ nowhere (rw (e, a) refl) (rw (e, b) refl)
    | at i a b l ↦ at (suc i) (rw (e, a) refl) (rw (e, b) refl) (omega (arith, l))
  ]
]

pub drop-drop : (n m : ℕ) (s : List ℕ) → drop n (drop m s) ≡ drop (m + n) s
drop-drop n zero s = ap (λ k. drop k s) (omega arith)
drop-drop n (suc m) [] = drop_all n [] (omega arith) ∙ sym (drop_all (suc m + n) [] (omega arith))
drop-drop n (suc m) (c ∷ s) =
    drop-drop n m s ∙ ap (λ k. drop k (c ∷ s)) {x = suc (m + n)} (omega arith)

split_loop_lem :
    (fuel : ℕ) (str : List ℕ) (d start : ℕ) (strs : List (List ℕ))
    → length (drop start str) < fuel
    → split_loop fuel str d start (find_first_of str d start) strs
      ≡ done (strs ++ split d (drop start str))
unfolding split_loop
split_loop_lem zero str d start strs h = absurd (omega (arith, h))
split_loop_lem (suc fuel) str d start strs h = elim (found d (drop start str)) [
  | nowhere a b ↦ rw (a, b) refl
  | at i a b l ↦
      let start2 : ℕ = (start + i) + 1 in
      let rest : drop (suc i) (drop start str) ≡ drop start2 str =
        drop-drop (suc i) start str ∙ ap (λ k. drop k str) (omega arith) in
      rw (a, b)
        (split_loop_lem fuel str d start2
            (strs ++ (take ((start + i) - start) (drop start str) ∷ []))
            (omega (arith, h, l, ap length rest, length-drop (suc i) (drop start str)))
          ∙ ap done (
              append_assoc strs _ _
              ∙ ap (λ k. strs ++ (take k (drop start str) ∷ split d (drop start2 str)))
                  (omega arith)
              ∙ ap (λ r. strs ++ (take i (drop start str) ∷ split d r)) (sym rest)))
]

string_split_lem : (str : List ℕ) (d : ℕ) → string_split str d ≡ done (split d str)
unfolding string_split
string_split_lem str d = split_loop_lem (suc (length str)) str d 0 [] (omega arith)

==_same : (d : ℕ) → (d == d) ≡ true
==_same d = ground arith

==_other : (c d : ℕ) → c ≢ d → (c == d) ≡ false
==_other c d n = ground arith

-- The pieces are never none, hold no delimiter, and join to the text.
push-filled : (c : ℕ) (ps : List (List ℕ)) → push c ps ≢ []
unfolding push
push-filled c [] e = cc
push-filled c (p ∷ ps) e = cc

split-filled : (d : ℕ) (s : List ℕ) → split d s ≢ []
unfolding split push
split-filled d [] e = cc
split-filled d (c ∷ s) e = elim (Bool-cases (c == d)) [
  | inl q ↦ cc (rw q at e)
  | inr q ↦ push-filled c (split d s) (rw q at e)
]

push-Without :
    (d c : ℕ) (ps : List (List ℕ)) → c ≢ d → All (Without d) ps → All (Without d) (push c ps)
unfolding push
push-Without d c [] n h = ((n, tt), tt)
push-Without d c (p ∷ ps) n h = ((n, h.0), h.1)

split-Without : (d : ℕ) (s : List ℕ) → All (Without d) (split d s)
unfolding split push
split-Without d [] = (tt, tt)
split-Without d (c ∷ s) = elim (Bool-cases (c == d)) [
  | inl q ↦ rw q (tt, split-Without d s)
  | inr q ↦ rw q (push-Without d c (split d s) (λ e. cc (q, (==_iff c d).1 e)) (split-Without d s))
]

join-push : (d c : ℕ) (ps : List (List ℕ)) → ps ≢ [] → join d (push c ps) ≡ c ∷ join d ps
unfolding join push
join-push d c [] n = absurd (n refl)
join-push d c (p ∷ []) n = refl
join-push d c (p ∷ q ∷ ps) n = refl

join_front : (d : ℕ) (ps : List (List ℕ)) → ps ≢ [] → join d ([] ∷ ps) ≡ d ∷ join d ps
unfolding join
join_front d [] n = absurd (n refl)
join_front d (p ∷ ps) n = refl

join-split : (d : ℕ) (s : List ℕ) → join d (split d s) ≡ s
unfolding split join
join-split d [] = refl
join-split d (c ∷ s) = elim (Bool-cases (c == d)) [
  | inl q ↦ rw q (
      join_front d (split d s) (split-filled d s)
      ∙ ap (λ t. d ∷ t) (join-split d s)
      ∙ ap (λ x. x ∷ s) (sym ((==_iff c d).0 q)))
  | inr q ↦ rw q (join-push d c (split d s) (split-filled d s) ∙ ap (λ t. c ∷ t) (join-split d s))
]

-- Conversely a joined text is cut where it was joined.
split_piece : (d : ℕ) (p rest : List ℕ) → Without d p → split d (p ++ (d ∷ rest)) ≡ p ∷ split d rest
unfolding split push
split_piece d [] rest h = rw (==_same d) refl
split_piece d (c ∷ p) rest h = rw (==_other c d h.0) (rw (split_piece d p rest h.1) refl)

split_last : (d : ℕ) (p : List ℕ) → Without d p → split d p ≡ p ∷ []
unfolding split push
split_last d [] h = refl
split_last d (c ∷ p) h = rw (==_other c d h.0) (rw (split_last d p h.1) refl)

split-join : (d : ℕ) (ps : List (List ℕ)) → ps ≢ [] → All (Without d) ps → split d (join d ps) ≡ ps
unfolding join
split-join d [] n h = absurd (n refl)
split-join d (p ∷ []) n h = split_last d p h.0
split-join d (p ∷ q ∷ ps) n h =
    split_piece d p (join d (q ∷ ps)) h.0 ∙ ap (λ t. p ∷ t) (split-join d (q ∷ ps) (λ e. cc) h.1)

string_split_is :
    (str : List ℕ) (delim : ℕ) (ps : List (List ℕ))
    → (string_split str delim ≡ done ps)
      ↔ ((ps ≢ []) × (join delim ps ≡ str) × All (Without delim) ps)
string_split_is str delim ps = (
  (λ e.
      let pieces : split delim str ≡ ps = cc (e, string_split_lem str delim) in
      rw (sym pieces) (split-filled delim str, join-split delim str, split-Without delim str)),
  (λ (n, j, w).
      string_split_lem str delim ∙ ap done (ap (split delim) (sym j) ∙ split-join delim ps n w)),
)

-- string_split ends on every text, and it gives exactly the list of pieces without the delimiter
-- that is not empty and, joined by the delimiter, is the text.
pub string_split_iff :
    (str : List ℕ) (delim : ℕ) (ps : List (List ℕ))
    → ((pieces : List (List ℕ)) × (string_split str delim ≡ done pieces))
      × ((string_split str delim ≡ done ps)
          ↔ ((ps ≢ []) × (join delim ps ≡ str) × All (Without delim) ps))
string_split_iff str delim ps =
    ((split delim str, string_split_lem str delim), string_split_is str delim ps)

-- The text in front of the first NUL of an array is what a reader of a C string finds there.
pub take-find_end_char : (r : List ℕ) → take (find_end_char r 0) r ≡ c_str r
unfolding find_end_char index_of c_str
take-find_end_char [] = refl
take-find_end_char (b ∷ bs) =
    let whole : List ℕ = b ∷ bs in
    let ih : take (find_end_char bs 0) bs ≡ c_str bs = take-find_end_char bs in
    elim (Bool-cases (b == 0)) [
      | inl e ↦
          let h : index_of 0 whole ≡ some 0 = rw e refl in
          let k : c_str whole ≡ [] = rw e refl in ap (λ o. take (place_in whole o) whole) h ∙ sym k
      | inr e ↦
          let k : c_str whole ≡ b ∷ c_str bs = rw e refl in
          elim (Option-cases (index_of 0 bs)) [
            | inl a ↦
                let h : index_of 0 whole ≡ none = rw (e, a) refl in
                ap (λ o. take (place_in whole o) whole) h
                ∙ ap (λ t. b ∷ t) (ap (λ o. take (place_in bs o) bs) (sym a) ∙ ih)
                ∙ sym k
            | inr (i, a) ↦
                let h : index_of 0 whole ≡ some (suc i) = rw (e, a) refl in
                ap (λ o. take (place_in whole o) whole) h
                ∙ ap (λ t. b ∷ t) (ap (λ o. take (place_in bs o) bs) (sym a) ∙ ih)
                ∙ sym k
          ]
    ]

pub index_of-Without : (c : ℕ) (s : List ℕ) → Without c s → index_of c s ≡ none
unfolding index_of
index_of-Without c [] h = refl
index_of-Without c (b ∷ s) h = rw (==_other b c h.0) (rw (index_of-Without c s h.1) refl)
