-- ===== src/Meeting/Turns.antt =====
-- Whatever is read when: the two sides are in one turn of their dialogue, which the one has written and the
-- other is reading.
use dirty_net.Prelude.{
  ℕ, ◌+◌, ◌≡◌, ◌⊎◌, inl, inr, sym, ap, ◌∙◌, List, [], ◌∷◌, ◌++◌, append-nil, arith, length, All,
}
use dirty_net.Packet.Shape.{Message}
use dirty_net.Stream.Split.{wires}
use dirty_net.Stream.Chunks.{concat, IsChunk}
use dirty_net.Session.{Event}
use dirty_net.Session.Awaits.{Arrives}
use dirty_net.Session.Dialogue.{Side, Talk, hears, speaks, Over, written}
use dirty_net.Meeting.Network.{size}

abbrev pub IsTurn : List Message → Type 0
IsTurn ms = IsChunk (wires ms)

-- `cs` are the reads of the turn so far, and `rest` is what they have not brought.
pub record Turn (listener speaker : Side) (heard spoken : List Event) (total : ℕ)
    (p q : List (List ℕ)) : Type 0 where
  pub before : List (List ℕ)
  pub cs : List (List ℕ)
  pub rest : List ℕ
  pub messages : List Message
  pub turns : List (List Message)
  pub reads : p ≡ before ++ cs
  pub arrives : Arrives messages (cs ++ (rest ∷ []))
  pub listens : Talk hears (λ later. listener (before ++ later)) heard (concat q) (messages ∷ turns)
  pub speaks_on :
      Talk speaks (λ later. speaker (q ++ later)) spoken (concat before) (messages ∷ turns)
  pub this_turn : IsTurn messages
  pub later_turns : All IsTurn turns
  pub sizes : length (concat before) + length (concat q) + size (messages ∷ turns) ≡ total

pub record Done (listener speaker : Side) (heard spoken : List Event) (total : ℕ)
    (p q : List (List ℕ)) : Type 0 where
  pub listener_over : Over listener heard p
  pub speaker_over : Over speaker spoken q
  pub all_spoken : written spoken ≡ concat p
  pub all_heard : written heard ≡ concat q
  pub sizes : length (concat p) + length (concat q) ≡ total

pub whole_turn : (ms : List Message) → IsTurn ms → Arrives ms (wires ms ∷ [])
whole_turn ms k = record { chunks = (k, tt); bytes_are = append-nil (wires ms) }

-- The turn is whole: the listener becomes the speaker, or both are done.
pub Talk-Turn :
    (listener speaker : Side) (heard spoken : List Event) (total : ℕ) (p q : List (List ℕ))
    (turns : List (List Message))
    → Talk speaks (λ later. listener (p ++ later)) heard (concat q) turns
    → Talk hears (λ later. speaker (q ++ later)) spoken (concat p) turns
    → All IsTurn turns
    → length (concat p) + length (concat q) + size turns ≡ total
    → Turn speaker listener spoken heard total q p ⊎ Done listener speaker heard spoken total p q
unfolding Talk
Talk-Turn listener speaker heard spoken total p q [] l s k n = inr (record {
  listener_over = ap listener (sym (append-nil p)) ∙ l.0;
  speaker_over = ap speaker (sym (append-nil q)) ∙ s.0;
  all_spoken = s.1;
  all_heard = l.1;
  sizes = omega (arith, n);
})
Talk-Turn listener speaker heard spoken total p q (ms ∷ turns) l s k n = inl (record {
  before = q;
  cs = [];
  rest = wires ms;
  messages = ms;
  turns = turns;
  reads = sym (append-nil q);
  arrives = whole_turn ms k.0;
  listens = s;
  speaks_on = l;
  this_turn = k.0;
  later_turns = k.1;
  sizes = omega (arith, n);
})
