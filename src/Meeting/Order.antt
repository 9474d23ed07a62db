-- ===== src/Meeting/Order.antt =====
-- What the two sides of a dialogue have written and read within a turn.
use dirty_net.Prelude.{ℕ, ◌≡◌, sym, ap, ◌∙◌, List, [], ◌∷◌, ◌++◌, append_assoc, append-nil, All}
use dirty_net.Packet.Shape.{Message}
use dirty_net.Stream.Split.{wires}
use dirty_net.Stream.Chunks.{concat}
use dirty_net.Session.{Event}
use dirty_net.Session.Dialogue.{Side, Talk, Role, hears, speaks, said, written}
use dirty_net.Meeting.Network.{Delivers, delivers, Prefix}
use dirty_net.Meeting.Turns.{IsTurn, Turn, whole_turn}
use dirty_net.Meeting.Reads.{said_by_listener, said_by_speaker, can_read}

-- What a side still has to write.
says : Role → List (List Message) → List ℕ
says hears [] = []
says speaks [] = []
says hears (ms ∷ turns) = says speaks turns
says speaks (ms ∷ turns) = wires ms ++ says hears turns

written-says :
    (role : Role) (side : Side) (es : List Event) (so_far : List ℕ) (turns : List (List Message))
    → All IsTurn turns
    → Talk role side es so_far turns
    → written es ≡ so_far ++ says role turns
unfolding Talk says
written-says hears side es so_far [] k t = t.1 ∙ sym (append-nil so_far)
written-says speaks side es so_far [] k t = t.1 ∙ sym (append-nil so_far)
written-says hears side es so_far (ms ∷ turns) k t =
    written-says speaks (λ later. side (wires ms ∷ later)) es so_far turns k.1
      (t.1 (wires ms ∷ []) (whole_turn ms k.0))
written-says speaks side es so_far (ms ∷ turns) k t =
    written-says hears side es (so_far ++ wires ms) turns k.1 t
    ∙ append_assoc so_far (wires ms) (says hears turns)

-- Both sides in a turn, seen from the side that listens.
pub record TurnInOrder (listener speaker : Side) (heard spoken : List Event) (p q : List (List ℕ))
    : Type 0 where
  pub listener_reads : Prefix (concat p) (said speaker q)
  pub listener_says : Prefix (said listener p) (written heard)
  pub speaker_says : Prefix (said speaker q) (written spoken)
  pub speaker_has_read : said listener p ≡ concat q

delivered_part :
    (sent : List ℕ) (reads more : List (List ℕ))
    → Delivers sent reads more
    → Prefix (concat reads) sent
delivered_part sent reads more (delivers c rest k e) = (c ++ rest, e)

pub Turn-TurnInOrder :
    (listener speaker : Side) (heard spoken : List Event) (total : ℕ) (p q : List (List ℕ))
    → Turn listener speaker heard spoken total p q
    → TurnInOrder listener speaker heard spoken p q
unfolding says
Turn-TurnInOrder listener speaker heard spoken total p q t =
    let heard_all = said_by_listener listener speaker heard spoken total p q t in
    let said_all = said_by_speaker listener speaker heard spoken total p q t in
    record {
      listener_reads = delivered_part _ p _ (can_read listener speaker heard spoken total p q t);
      listener_says = (
        says hears (t.messages ∷ t.turns),
        written-says hears _ heard (concat q) (t.messages ∷ t.turns) (t.this_turn, t.later_turns)
              t.listens
            ∙ ap (λ x. x ++ says hears (t.messages ∷ t.turns)) (sym heard_all),
      );
      speaker_says = (
        says hears t.turns,
        written-says speaks _ spoken (concat t.before) (t.messages ∷ t.turns)
              (t.this_turn, t.later_turns) t.speaks_on
            ∙ sym (append_assoc (concat t.before) (wires t.messages) (says hears t.turns))
            ∙ ap (λ x. x ++ says hears t.turns) (sym said_all),
      );
      speaker_has_read = heard_all;
    }

pub all_of : (xs ys : List ℕ) → xs ≡ ys → Prefix ys xs
all_of xs ys e = ([], e ∙ sym (append-nil ys))
