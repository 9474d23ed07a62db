-- ===== src/Stream/Split.antt =====
-- A stream of messages cut anywhere: the part in front is whole messages and a piece of one.
use dirty_net.Prelude.{
  ℕ, ◌≤◌, ◌<◌, ◌≡◌, refl, sym, ap, ◌∙◌, List, [], ◌∷◌, ◌++◌, append_assoc, arith, done, length,
  length-append, All,
}
use native.Mathlib.Decide.{dec_lt}
use dirty_net.ByteOrder.{ByteOrder}
use dirty_net.Packet.{incomplete_result, parse_packet}
use dirty_net.Packet.Shape.{Message, Fits, wire}
use dirty_net.Packet.Parse.{parse_short}
use dirty_net.Packet.Outcomes.{parse_prefix}

-- The bytes of several messages, one behind the other.
abbrev pub wires : List Message → List ℕ
wires [] = []
wires (m ∷ ms) = wire m ++ wires ms

-- The parser waits for more; so it does where nothing is left.
abbrev pub Pending : ByteOrder → List ℕ → Type 0
Pending o bytes = parse_packet o bytes ≡ done incomplete_result

-- Where two ways to cut a list meet, the longer front begins with the shorter.
append_cut {ℓ} :
    {A : Type ℓ} (xs ys zs ws : List A)
    → xs ++ ys ≡ zs ++ ws
    → length zs ≤ length xs
    → (mid : List A) × (xs ≡ zs ++ mid) × (mid ++ ys ≡ ws)
append_cut xs ys [] ws e h = (xs, refl, e)
append_cut [] ys (z ∷ zs) ws e h = absurd (omega arith)
append_cut (x ∷ xs) ys (z ∷ zs) ws e h =
    let (mid, p, q) = append_cut xs ys zs ws (cc) (omega arith) in (mid, cc, q)

pub record Cut (o : ByteOrder) (ms : List Message) (front back : List ℕ) : Type 0 where
  pub whole : List Message
  pub later : List Message
  pub piece : List ℕ
  pub messages : ms ≡ whole ++ later
  pub front_is : front ≡ wires whole ++ piece
  pub rest_is : piece ++ back ≡ wires later
  pub pending : Pending o piece

no_bytes : (o : ByteOrder) → Pending o []
no_bytes o = parse_short o [] (omega arith)

-- A front shorter than the next message is a piece of it.
piece-Pending :
    (o : ByteOrder) (m : Message) (front mid : List ℕ)
    → Fits m
    → wire m ≡ front ++ mid
    → length front < length (wire m)
    → Pending o front
piece-Pending o m front [] f e h = absurd (omega (arith, ap length e, length-append front []))
piece-Pending o m front (x ∷ back) f e h = parse_prefix o m front x back f e

empty_front : {A : Type 0} (front back : List A) → front ++ back ≡ [] → front ≡ []
empty_front [] back e = refl
empty_front (x ∷ front) back e = cc

pub cut :
    (o : ByteOrder) (ms : List Message) (front back : List ℕ)
    → All Fits ms
    → front ++ back ≡ wires ms
    → Cut o ms front back
cut o [] front back f e =
    let none_left : front ≡ [] = empty_front front back e in
    record {
      whole = [];
      later = [];
      piece = [];
      messages = refl;
      front_is = none_left;
      rest_is = ap (λ t. t ++ back) (sym none_left) ∙ e;
      pending = no_bytes o;
    }
cut o (m ∷ ms) front back f e = elim (dec_lt (length front) (length (wire m))) [
  | yes h ↦
      let (mid, p, q) = append_cut (wire m) (wires ms) front back (sym e) (omega arith) in
      record {
        whole = [];
        later = m ∷ ms;
        piece = front;
        messages = refl;
        front_is = refl;
        rest_is = e;
        pending = piece-Pending o m front mid f.0 p h;
      }
  | no h ↦
      let (mid, p, q) = append_cut front back (wire m) (wires ms) e (omega arith) in
      let c = cut o ms mid back f.1 q in
      record {
        whole = m ∷ c.whole;
        later = c.later;
        piece = c.piece;
        messages = ap (λ t. m ∷ t) c.messages;
        front_is =
            p
            ∙ ap (λ t. wire m ++ t) c.front_is
            ∙ sym (append_assoc (wire m) (wires c.whole) c.piece);
        rest_is = c.rest_is;
        pending = c.pending;
      }
]

pub wires-append : (ms ns : List Message) → wires (ms ++ ns) ≡ wires ms ++ wires ns
wires-append [] ns = refl
wires-append (m ∷ ms) ns =
    ap (λ t. wire m ++ t) (wires-append ms ns) ∙ sym (append_assoc (wire m) (wires ms) (wires ns))
