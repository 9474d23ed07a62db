-- ===== src/Session/Dialogue.antt =====
-- One side of a connection, as a function of what it has read: a dialogue in turns.
use dirty_net.Prelude.{ℕ, ◌≡◌, sym, ap, subst, ◌∙◌, List, [], ◌∷◌, ◌++◌, map}
use mathlib.Core.List.{map-append}
use dirty_net.Prelude.Int.{pos}
use dirty_net.Packet.Shape.{Message}
use dirty_net.Stream.{got}
use dirty_net.Stream.Split.{wires}
use dirty_net.Session.{
  Event, writes, closes, M, Exit, next, returns, undefined, unfinished, and_then,
}
use dirty_net.Session.Batch.{session}
use dirty_net.Session.Awaits.{Arrives, Awaits}

-- The bytes that a run writes.
bytes_of : Event → List ℕ
bytes_of (writes fd bytes) = bytes
bytes_of (closes fd) = []

unfoldable pub written : List Event → List ℕ
unfolding bytes_of
written [] = []
written (e ∷ es) = bytes_of e ++ written es

-- A main function on a connection that gives out behind these reads.
abbrev pub Side : Type 0
Side = List (List ℕ) → Exit (Unit {0})

unfoldable pub calls : Exit (Unit {0}) → List Event
calls (next a s) = s.events
calls (returns c s) = s.events
calls undefined = []
calls unfinished = []

-- What a side has written when it has made these reads and waits for the next one. What main does
-- before that read does not depend on its answer.
unfoldable pub said : Side → List (List ℕ) → List ℕ
unfolding calls written
said side cs = written (calls (side cs))

-- main has returned 0 with these calls.
abbrev pub Over : Side → List Event → List (List ℕ) → Type 0
Over side es cs = side cs ≡ returns (pos 0) (session [] [] es)

pub data Role : Type 0 where
  hears speaks : Role

-- The turns that are still to come, heard or spoken by this side in alternation, and what it has written so
-- far. It writes its next turn as soon as the turn that it hears is whole, and nothing before.
unfoldable pub Talk : Role → Side → List Event → List ℕ → List (List Message) → Type 0
Talk hears side es so_far [] = Over side es [] × (written es ≡ so_far)
Talk speaks side es so_far [] = Over side es [] × (written es ≡ so_far)
Talk hears side es so_far (ms ∷ turns) =
    ((cs : List (List ℕ)) (rest : List ℕ) → Arrives ms (cs ++ (rest ∷ [])) → said side cs ≡ so_far)
    × ((cs : List (List ℕ))
        → Arrives ms cs
        → Talk speaks (λ later. side (cs ++ later)) es so_far turns)
Talk speaks side es so_far (ms ∷ turns) = Talk hears side es (so_far ++ wires ms) turns

same_side :
    (role : Role) (side other : Side) (es : List Event) (so_far : List ℕ)
    (turns : List (List Message))
    → ((cs : List (List ℕ)) → side cs ≡ other cs)
    → Talk role side es so_far turns
    → Talk role other es so_far turns
same_side role side other es so_far turns e =
    subst (λ x. Talk role x es so_far turns) (λ i cs. e cs i)

pub speaks_turn :
    (ms : List Message) (side : Side) (es : List Event) (so_far : List ℕ)
    (turns : List (List Message))
    → Talk hears side es (so_far ++ wires ms) turns
    → Talk speaks side es so_far (ms ∷ turns)
unfolding Talk
speaks_turn ms side es so_far turns t = t

-- No turn is left: the side returns 0.
pub last_turn :
    (role : Role) (side : Side) (es : List Event) (so_far : List ℕ)
    → Over side es []
    → written es ≡ so_far
    → Talk role side es so_far []
unfolding Talk
last_turn hears side es so_far o w = (o, w)
last_turn speaks side es so_far o w = (o, w)

-- A side that waits for the messages of a turn, with the calls `made` behind it.
pub hears_turn :
    {A : Type 0} (part : M A) (ms : List Message) (value : A) (after : A → M (Unit {0}))
    (side : Side) (made es : List Event) (so_far : List ℕ) (turns : List (List Message))
    → Awaits part ms value
    → ((cs : List (List ℕ)) → side cs ≡ and_then (part (session (map got cs) [] made)) after)
    → written made ≡ so_far
    → Talk speaks (λ later. after value (session (map got later) [] made)) es so_far turns
    → Talk hears side es so_far (ms ∷ turns)
unfolding Talk said calls
hears_turn part ms value after side made es so_far turns w e m t = (
  λ cs rest a.
      let (u, p) = w.stalls cs rest made a in
      ap (λ x. written (calls x)) (e cs ∙ ap (λ x. and_then x after) p) ∙ m,
  λ cs a.
      same_side speaks _ (λ later. side (cs ++ later)) es so_far turns
        (λ later. sym (
          e (cs ++ later)
          ∙ ap (λ x. and_then (part (session x [] made)) after) (map-append got cs later)
          ∙ ap (λ x. and_then x after) (w.goes_on cs (map got later) made a)))
        t,
)
