-- ===== src/Session/Progress.antt =====
-- What a part of main has taken off the stream and which calls it has made, kept from step to step.
use dirty_net.Prelude.{
  ℕ, ◌≡◌, refl, sym, ap, subst, ◌∙◌, Bool, true, List, [], ◌∷◌, ◌++◌, append_assoc,
}
use dirty_net.Prelude.Int.{ℤ, negsuc}
use dirty_net.Packet.Shape.{Message, Fits, packet_of, wire, encode-wire}
use dirty_net.Packet.Outcomes.{IsBuffer}
use dirty_net.Stream.Split.{wires, wires-append}
use dirty_net.Session.{Session, Host, Event, writes, M, ◌>>=◌, ◌>>◌, require, send}
use dirty_net.Session.Ensures.{Ending, Ensures, gives, and_then-Ensures, require-Ensures}
use dirty_net.Stream.Overrun.{Overrun, Overrun-behind}
use dirty_net.Session.Receive.{stream}

-- From `s` to `t` the messages `ms` were taken off the stream, and the calls `es` were made.
pub record Progress (s : Session) (ms : List Message) (es : List Event) (t : Session) : Type 0 where
  pub stream_is : stream s ≡ wires ms ++ stream t
  pub buffer : IsBuffer (stream t)
  pub events_are : t.events ≡ s.events ++ es

pub Overrun-earlier :
    (s t : Session) (ms : List Message) (es : List Event)
    → Progress s ms es t
    → Overrun (stream t)
    → Overrun (stream s)
Overrun-earlier s t ms es p v = Overrun-behind (stream s) (stream t) ms p.stream_is v

pub taken-Progress :
    (s t u : Session) (ms ns : List Message) (es : List Event)
    → Progress s ms es t
    → stream t ≡ wires ns ++ stream u
    → IsBuffer (stream u)
    → u.events ≡ t.events
    → Progress s (ms ++ ns) es u
taken-Progress s t u ms ns es p split b k = record {
  stream_is =
      p.stream_is
      ∙ ap (λ x. wires ms ++ x) split
      ∙ sym (append_assoc (wires ms) (wires ns) (stream u))
      ∙ ap (λ x. x ++ stream u) (sym (wires-append ms ns));
  buffer = b;
  events_are = k ∙ p.events_are;
}

pub event-Progress :
    (s t u : Session) (ms : List Message) (es : List Event) (e : Event)
    → Progress s ms es t
    → u ≡ record t { events = t.events ++ (e ∷ []) }
    → Progress s ms (es ++ (e ∷ [])) u
event-Progress s t u ms es e p q = subst (Progress s ms (es ++ (e ∷ []))) (sym q) (record {
  stream_is = p.stream_is;
  buffer = p.buffer;
  events_are = ap (λ x. x ++ (e ∷ [])) p.events_are ∙ append_assoc s.events es (e ∷ []);
})

-- The session after one more write.
abbrev pub after_write : ℤ → List ℕ → Session → Session
after_write fd bytes s = record s { events = s.events ++ (writes fd bytes ∷ []) }

-- A message that fits is written as its wire form.
pub send-writes :
    (h : Host) (R : Ending) (fd : ℤ) (m : Message) (s : Session)
    → Fits m
    → Ensures (λ _ t. t ≡ after_write fd (wire m) s) R (send h fd (packet_of m) s)
unfolding send
send-writes h R fd m s f = rw (encode-wire h.byte_order m f) (gives _ _ refl)

-- A value would mean that main goes on behind its end.
abbrev pub Ended : Unit {0} → Session → Type 0
Ended _ _ = ⊥

-- What a part of main, from a session with that progress on, has to ensure of main's end.
abbrev pub Meets : Ending → Session → List Message → List Event → M (Unit {0}) → Type 0
Meets R s ms es k = (t : Session) → Progress s ms es t → Ensures Ended R (k t)

module _ (h : Host) (R : Ending) (fails : (t : Session) → R.returned (negsuc 0) t)
    (s : Session) where
  pub after_write_of :
      (ms : List Message) (es : List Event) (fd : ℤ) (bytes : List ℕ) {A : Type 0} (m : M A)
      (k : A → M (Unit {0}))
      → ((t : Session) → Ensures (λ _ u. u ≡ after_write fd bytes t) R (m t))
      → ((a : A) → Meets R s ms (es ++ (writes fd bytes ∷ [])) (k a))
      → Meets R s ms es (m >>= k)
  after_write_of ms es fd bytes m k f g t p =
      and_then-Ensures k (f t) (λ a u e. g a u (event-Progress s t u ms es (writes fd bytes) p e))

  -- A packet that is sent, as a write made.
  pub after_send :
      (fd : ℤ) (ms : List Message) (es : List Event) (m : Message) (k : M (Unit {0}))
      → Fits m
      → Meets R s ms (es ++ (writes fd (wire m) ∷ [])) k
      → Meets R s ms es (send h fd (packet_of m) >>= λ _. k)
  after_send fd ms es m k f g =
      after_write_of ms es fd (wire m) (send h fd (packet_of m)) (λ _. k)
        (λ t. send-writes h R fd m t f) (λ _. g)

  pub after_require :
      (ms : List Message) (es : List Event) (b : Bool) (k : M (Unit {0}))
      → (b ≡ true → Meets R s ms es k)
      → Meets R s ms es (require b >> k)
  after_require ms es b k g t p =
      and_then-Ensures _ (require-Ensures _ b t (fails t))
        (λ _ u e. g e.0 u (subst (Progress s ms es) (sym e.1) p))
