-- ===== src/Meeting/Reads.antt =====
-- A read within a turn of a dialogue.
use dirty_net.Prelude.{
  ℕ, ◌+◌, ◌≤◌, ◌≡◌, ◌≢◌, ◌⊎◌, inl, inr, refl, sym, ap, subst, ◌∙◌, List, [], ◌∷◌, ◌++◌,
  append_assoc, append-nil, arith, length, length-append, All, All-append, All-left, All-right,
}
use dirty_net.Packet.Shape.{Message}
use dirty_net.Stream.Split.{wires}
use dirty_net.Stream.Chunks.{concat, IsChunk}
use dirty_net.Session.{Event}
use dirty_net.Session.Awaits.{Arrives}
use dirty_net.Session.Dialogue.{Side, Talk, hears, speaks, said, calls, written}
use dirty_net.Meeting.Network.{Delivers, delivers, size}
use dirty_net.Meeting.Turns.{IsTurn, Turn, Done, whole_turn, Talk-Turn}

append_cancel : {A : Type 0} (xs ys zs : List A) → xs ++ ys ≡ xs ++ zs → ys ≡ zs
append_cancel [] ys zs e = e
append_cancel (x ∷ xs) ys zs e = append_cancel xs ys zs (cc)

pub concat-append : (cs ds : List (List ℕ)) → concat (cs ++ ds) ≡ concat cs ++ concat ds
concat-append [] ds = refl
concat-append (c ∷ cs) ds =
    ap (λ x. c ++ x) (concat-append cs ds) ∙ sym (append_assoc c (concat cs) (concat ds))

pub nothing_more : {A : Type 0} (xs c rest : List A) → xs ≡ xs ++ (c ++ rest) → c ≡ []
nothing_more [] [] rest e = refl
nothing_more [] (x ∷ c) rest e = cc
nothing_more (x ∷ xs) c rest e = nothing_more xs c rest (cc)

-- A side that has not begun to hear has written what it has to.
said_before :
    (side : Side) (es : List Event) (so_far : List ℕ) (turns : List (List Message))
    → All IsTurn turns
    → Talk hears side es so_far turns
    → said side [] ≡ so_far
unfolding Talk said calls
said_before side es so_far [] k t = ap (λ x. written (calls x)) t.0 ∙ t.1
said_before side es so_far (ms ∷ turns) k t = t.0 [] (wires ms) (whole_turn ms k.0)

module _ (listener speaker : Side) (heard spoken : List Event) (total : ℕ) (p q : List (List ℕ))
    (t : Turn listener speaker heard spoken total p q) where
  pub said_by_listener : said listener p ≡ concat q
  unfolding Talk said
  said_by_listener = ap (said listener) t.reads ∙ t.listens.0 t.cs t.rest t.arrives

  pub said_by_speaker : said speaker q ≡ concat t.before ++ wires t.messages
  unfolding Talk said
  said_by_speaker =
      ap (said speaker) (sym (append-nil q))
      ∙ said_before (λ later. speaker (q ++ later)) spoken (concat t.before ++ wires t.messages)
          t.turns t.later_turns t.speaks_on

  read_so_far : concat p ≡ concat t.before ++ concat t.cs
  read_so_far = ap concat t.reads ∙ concat-append t.before t.cs

  pub rest-IsChunk : IsChunk t.rest
  rest-IsChunk = (All-right IsChunk t.cs (t.rest ∷ []) t.arrives.chunks).0

  -- The listener can read what is missing of the turn.
  pub can_read : Delivers (said speaker q) p (p ++ (t.rest ∷ []))
  can_read = delivers t.rest [] rest-IsChunk (
      said_by_speaker
      ∙ ap (λ x. concat t.before ++ x) (sym t.arrives.bytes_are ∙ concat-append t.cs (t.rest ∷ []))
      ∙ sym (append_assoc (concat t.before) (concat t.cs) (t.rest ++ []))
      ∙ ap (λ x. x ++ (t.rest ++ [])) (sym read_so_far))

  pub read_bound : length (concat p) + length (concat q) ≤ total
  read_bound = omega (
    arith,
    ap length read_so_far,
    length-append (concat t.before) (concat t.cs),
    ap length (sym t.arrives.bytes_are ∙ concat-append t.cs (t.rest ∷ [])),
    length-append (concat t.cs) (t.rest ++ []),
    t.sizes,
  )

  -- The speaker cannot read: what the listener has written, it has read.
  pub cannot_read : (c rest : List ℕ) → IsChunk c → said listener p ≢ concat q ++ (c ++ rest)
  cannot_read c rest k e = k (nothing_more (concat q) c rest (sym said_by_listener ∙ e))

  -- A read of the listener brings more of the turn.
  still_missing :
      (c rest : List ℕ)
      → said speaker q ≡ concat p ++ (c ++ rest)
      → concat t.cs ++ (c ++ rest) ≡ wires t.messages
  still_missing c rest e = append_cancel (concat t.before) _ _ (
      sym (append_assoc (concat t.before) (concat t.cs) (c ++ rest))
      ∙ ap (λ x. x ++ (c ++ rest)) (sym read_so_far)
      ∙ sym e
      ∙ said_by_speaker)

  so_far-Arrives :
      (c rest : List ℕ)
      → IsChunk c
      → said speaker q ≡ concat p ++ (c ++ rest)
      → All IsChunk (rest ∷ [])
      → Arrives t.messages ((t.cs ++ (c ∷ [])) ++ (rest ∷ []))
  so_far-Arrives c rest k e l = record {
    chunks =
        All-append IsChunk (t.cs ++ (c ∷ [])) (rest ∷ [])
          (All-append IsChunk t.cs (c ∷ []) (All-left IsChunk t.cs (t.rest ∷ []) t.arrives.chunks)
            (k, tt))
          l;
    bytes_are =
        ap concat (append_assoc t.cs (c ∷ []) (rest ∷ []))
        ∙ concat-append t.cs (c ∷ rest ∷ [])
        ∙ ap (λ x. concat t.cs ++ (c ++ x)) (append-nil rest)
        ∙ still_missing c rest e;
  }

  whole-Arrives :
      (c : List ℕ)
      → IsChunk c
      → said speaker q ≡ concat p ++ (c ++ [])
      → Arrives t.messages (t.cs ++ (c ∷ []))
  whole-Arrives c k e = record {
    chunks =
        All-append IsChunk t.cs (c ∷ []) (All-left IsChunk t.cs (t.rest ∷ []) t.arrives.chunks)
          (k, tt);
    bytes_are = concat-append t.cs (c ∷ []) ∙ still_missing c [] e;
  }

  same_reads : (c : List ℕ) → p ++ (c ∷ []) ≡ t.before ++ (t.cs ++ (c ∷ []))
  same_reads c = ap (λ x. x ++ (c ∷ [])) t.reads ∙ append_assoc t.before t.cs (c ∷ [])

  goes_on_hearing :
      (c : List ℕ) (b : ℕ) (bs : List ℕ)
      → IsChunk c
      → said speaker q ≡ concat p ++ (c ++ (b ∷ bs))
      → Turn listener speaker heard spoken total (p ++ (c ∷ [])) q
  goes_on_hearing c b bs k e = record {
    before = t.before;
    cs = t.cs ++ (c ∷ []);
    rest = b ∷ bs;
    messages = t.messages;
    turns = t.turns;
    reads = same_reads c;
    arrives = so_far-Arrives c (b ∷ bs) k e ((λ x. cc), tt);
    listens = t.listens;
    speaks_on = t.speaks_on;
    this_turn = t.this_turn;
    later_turns = t.later_turns;
    sizes = t.sizes;
  }

  -- All that is read when the turn is whole.
  read_by_now :
      (c : List ℕ)
      → IsChunk c
      → said speaker q ≡ concat p ++ (c ++ [])
      → concat t.before ++ wires t.messages ≡ concat (p ++ (c ∷ []))
  read_by_now c k e =
      ap (λ x. concat t.before ++ x) (sym (whole-Arrives c k e).bytes_are)
      ∙ sym (concat-append t.before (t.cs ++ (c ∷ [])))
      ∙ ap concat (sym (same_reads c))

  sizes_by_now :
      (c : List ℕ)
      → IsChunk c
      → said speaker q ≡ concat p ++ (c ++ [])
      → length (concat (p ++ (c ∷ []))) + length (concat q) + size t.turns ≡ total
  sizes_by_now c k e = omega (
    arith,
    ap length (read_by_now c k e),
    length-append (concat t.before) (wires t.messages),
    t.sizes,
  )

  listener_goes_on :
      (c : List ℕ)
      → IsChunk c
      → said speaker q ≡ concat p ++ (c ++ [])
      → Talk speaks (λ later. listener ((p ++ (c ∷ [])) ++ later)) heard (concat q) t.turns
  unfolding Talk
  listener_goes_on c k e =
      subst (λ side. Talk speaks side heard (concat q) t.turns)
        (λ i later. listener (regrouped later i))
        (t.listens.1 (t.cs ++ (c ∷ [])) (whole-Arrives c k e))
    where
      regrouped :
          (later : List (List ℕ))
          → t.before ++ ((t.cs ++ (c ∷ [])) ++ later) ≡ (p ++ (c ∷ [])) ++ later
      regrouped later =
          sym (append_assoc t.before (t.cs ++ (c ∷ [])) later)
          ∙ ap (λ x. x ++ later) (sym (same_reads c))

  speaker_goes_on :
      (c : List ℕ)
      → IsChunk c
      → said speaker q ≡ concat p ++ (c ++ [])
      → Talk hears (λ later. speaker (q ++ later)) spoken (concat (p ++ (c ∷ []))) t.turns
  unfolding Talk
  speaker_goes_on c k e =
      subst (λ x. Talk hears (λ later. speaker (q ++ later)) spoken x t.turns) (read_by_now c k e)
        t.speaks_on

  -- The listener reads some of the bytes that it has not yet.
  pub reads_on :
      (c rest : List ℕ)
      → IsChunk c
      → said speaker q ≡ concat p ++ (c ++ rest)
      → Turn listener speaker heard spoken total (p ++ (c ∷ [])) q
        ⊎ (Turn speaker listener spoken heard total q (p ++ (c ∷ []))
            ⊎ Done listener speaker heard spoken total (p ++ (c ∷ [])) q)
  reads_on c (b ∷ bs) k e = inl (goes_on_hearing c b bs k e)
  reads_on c [] k e = inr (
      Talk-Turn listener speaker heard spoken total (p ++ (c ∷ [])) q t.turns
        (listener_goes_on c k e) (speaker_goes_on c k e) t.later_turns (sizes_by_now c k e))
