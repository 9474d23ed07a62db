-- ===== src/Legacy/Ip/Laws.antt =====
-- What String() prints of an object made of a view, and of one made of a number.
use dirty_net.Prelude.{
  ℕ, ◌≤◌, ◌<◌, ◌≡◌, ◌≢◌, ◌⊎◌, inl, inr, refl, ap, ◌∙◌, true, false, some, List, [], ◌∷◌, ◌++◌,
  length, take, done, fault, arith,
}
use native.Mathlib.Decide.{dec_lt}
use dirty_net.Memory.{read_at}
use dirty_net.Memory.Laws.{read_at-done}
use dirty_net.Text.{c_str}
use dirty_net.Text.Laws.{IsText, c_str_text}
use dirty_net.Sandbox.Laws.{c_str_nul}
use dirty_net.Legacy.{View}
use dirty_net.Legacy.Util.{find_end_char}
use dirty_net.Legacy.Util.Split.{take-find_end_char}
use dirty_net.Legacy.Ip.{Conversions, Held, pointer_of, print_into, ipv4_of_view, ipv4_string}

-- The bytes that the view's pointer reaches.
abbrev pub reach : View → List ℕ
reach v = v.text ++ v.behind

pointer_of-cases :
    (s behind : List ℕ)
    → ((s ≡ []) × (pointer_of s behind ≡ fault))
      ⊎ ((s ≢ []) × (pointer_of s behind ≡ done (s ++ behind)))
pointer_of-cases [] behind = inl (refl, refl)
pointer_of-cases (b ∷ s) behind = inr ((λ e. cc), refl)

pub pointer_of-reach : (v : View) → v.text ≢ [] → pointer_of v.text v.behind ≡ done (reach v)
pointer_of-reach v n = elim (pointer_of-cases v.text v.behind) [
  | inl e ↦ absurd (n e.0)
  | inr e ↦ e.1
]

pub ipv4_of_view-done :
    (inet : Conversions) (v : View) (a : ℕ)
    → v.text ≢ []
    → inet.pton4 (c_str v.text) ≡ some a
    → 16 ≤ length (reach v)
    → ipv4_of_view inet v ≡ done (record { addr = a; addr_str = take 16 (reach v); valid = true })
unfolding ipv4_of_view
ipv4_of_view-done inet v a n e l =
    rw (pointer_of-reach v n) (rw (read_at-done (reach v) 0 16 (omega (arith, l)), e) refl)

pub ipv4_of_view-empty : (inet : Conversions) (v : View) → v.text ≡ [] → ipv4_of_view inet v ≡ fault
unfolding ipv4_of_view
ipv4_of_view-empty inet v e = rw e refl

pub ipv4_of_view-fault :
    (inet : Conversions) (v : View) → length (reach v) < 16 → ipv4_of_view inet v ≡ fault
unfolding ipv4_of_view read_at
ipv4_of_view-fault inet v l = elim (pointer_of-cases v.text v.behind) [
  | inl e ↦ ipv4_of_view-empty inet v e.0
  | inr e ↦ rw e.1 (ground (arith, l))
]

-- Of a view whose text inet_pton accepts, ipv4 takes the address, and it is valid; but String() gives what stands
-- in the first 16 bytes from the view's start up to a NUL, text behind the view included. If the view is empty, or memory ends
-- before these 16 bytes, the constructor reads out of bounds.
pub ipv4_string-ipv4_of_view :
    (inet : Conversions) (v : View) (a : ℕ)
    → inet.pton4 (c_str v.text) ≡ some a
    → (((v.text ≡ []) ⊎ (length (reach v) < 16)) × (ipv4_of_view inet v ≡ fault))
      ⊎ ((16 ≤ length (reach v))
          × ((h : Held ℕ) × (ipv4_of_view inet v ≡ done h)
              × (h.addr ≡ a)
              × (h.valid ≡ true)
              × (ipv4_string inet h ≡ (c_str (take 16 (reach v)), h))))
unfolding ipv4_string
ipv4_string-ipv4_of_view inet v a e =
    let made : Held ℕ = record { addr = a; addr_str = take 16 (reach v); valid = true } in
    elim (pointer_of-cases v.text v.behind) [
      | inl p ↦ inl (inl p.0, ipv4_of_view-empty inet v p.0)
      | inr p ↦ elim (dec_lt (length (reach v)) 16) [
        | yes l ↦ inl (inr l, ipv4_of_view-fault inet v l)
        | no l ↦
            let enough : 16 ≤ length (reach v) = omega (arith, l) in
            inr (
              enough,
              (
                made,
                ipv4_of_view-done inet v a p.0 e enough,
                refl,
                refl,
                ap (λ t. (t, made)) (take-find_end_char (take 16 (reach v))),
              ),
            )
      ]
    ]

print_into_lem :
    (text array : List ℕ)
    → IsText text
    → take (find_end_char (print_into text array) 0) (print_into text array) ≡ text
print_into_lem text array h =
    take-find_end_char (print_into text array) ∙ c_str_nul text _ ∙ c_str_text text h

-- The first String() on an object that is not valid, one made of a number or of a text that is no address, gives the text
-- of its address, and from then on the object is valid and String() gives the same.
pub ipv4_string-ipv4_string :
    (inet : Conversions) (h : Held ℕ)
    → h.valid ≡ false
    → IsText (inet.ntop4 h.addr)
    → (after : Held ℕ) × (ipv4_string inet h ≡ (inet.ntop4 h.addr, after))
      × (after.valid ≡ true)
      × (after.addr ≡ h.addr)
      × (ipv4_string inet after ≡ (inet.ntop4 h.addr, after))
unfolding ipv4_string
ipv4_string-ipv4_string inet h e t =
    let after : Held ℕ = record {
      addr = h.addr;
      addr_str = print_into (inet.ntop4 h.addr) h.addr_str;
      valid = true;
    } in
    let printed = print_into_lem (inet.ntop4 h.addr) h.addr_str t in
    (after, rw e (ap (λ x. (x, after)) printed), refl, refl, ap (λ x. (x, after)) printed)
