-- ===== src/Server/Phases.antt =====
-- Each phase of the server: what it takes off the stream, and what it writes.
use dirty_net.Prelude.{
  ◌≤◌, ◌≡◌, refl, sym, ap, subst, ◌∙◌, true, not, List, [], ◌∷◌, ◌++◌, map, append-nil, arith,
  length, ltb, All,
}
use dirty_net.Prelude.Int.{ℤ, negsuc, is_zero}
use dirty_net.Packet.{Packet, is_greeting}
use dirty_net.Packet.Shape.{Message, ping, pong, greeting, Fits, packet_of, wire}
use dirty_net.Packet.Outcomes.{IsBuffer}
use dirty_net.Stream.{Received}
use dirty_net.Stream.Split.{wires}
use dirty_net.Session.{Session, Host, is_ok}
use dirty_net.Session.Ensures.{
  Ending, Ensures, gives, and_then-Ensures, require-Ensures, Ensures-weaken,
}
use dirty_net.Stream.Overrun.{Overrun}
use dirty_net.Session.Receive.{stream, AfterCall, receive-AfterCall}
use dirty_net.Session.Collect.{collect_all-Collected}
use dirty_net.Session.Progress.{after_write, send-writes}
use dirty_net.Server.{is_ping, first_packet, await_one, expect_ping, expect_greeting, send_some}

-- The next message of the stream was taken off, and nothing was written.
pub record Took (s : Session) (m : Message) (t : Session) : Type 0 where
  pub fit : Fits m
  pub stream_is : stream s ≡ wire m ++ stream t
  pub buffer : IsBuffer (stream t)
  pub same_events : t.events ≡ s.events

abbrev TookPacket : Session → Packet → Session → Type 0
TookPacket s p t = (m : Message) × (p ≡ packet_of m) × Took s m t

one_message :
    (R : Ending) (s t : Session) (all : List Packet) (ms : List Message)
    → length all ≤ 1
    → 1 ≤ length all
    → All Fits ms
    → all ≡ map packet_of ms
    → stream s ≡ wires ms ++ stream t
    → IsBuffer (stream t)
    → t.events ≡ s.events
    → Ensures (TookPacket s) R (first_packet all t)
unfolding first_packet
one_message R s t [] ms few enough f p e b k = absurd (omega arith)
one_message R s t (q ∷ qs) [] few enough f p e b k = absurd (cc)
one_message R s t (q ∷ qs) (m ∷ n ∷ ms) few enough f p e b k = absurd (omega (arith, ap length p))
one_message R s t (q ∷ qs) (m ∷ []) few enough f p e b k = gives q t (
  m,
  cc,
  record {
    fit = f.0;
    stream_is = e ∙ ap (λ x. x ++ stream t) (append-nil (wire m));
    buffer = b;
    same_events = k;
  },
)

is_ping-eq : (m : Message) → is_ping (packet_of m).hdr ≡ true → m ≡ ping
unfolding packet_of
is_ping-eq ping e = refl
is_ping-eq pong e = cc
is_ping-eq (greeting b) e = cc

is_greeting-eq :
    (m : Message) → is_greeting (packet_of m).hdr ≡ true → m ≡ greeting (packet_of m).msg
unfolding packet_of
is_greeting-eq ping e = cc
is_greeting-eq pong e = cc
is_greeting-eq (greeting b) e = refl

module _ (h : Host) (R : Ending) (fails : (t : Session) → R.returned (negsuc 0) t) where
  await_one-TookPacket :
      (s t : Session) (r : Received)
      → (Overrun (stream s) → R.wrong)
      → AfterCall h.byte_order s r t
      → Ensures (TookPacket s) R (await_one h r.packets t)
  unfolding await_one
  await_one-TookPacket s t r wrong q =
      and_then-Ensures _ (collect_all-Collected h R fails s t r 1 (omega arith) wrong q) (λ all u c.
        and_then-Ensures _ (require-Ensures R (not (ltb 1 (length all))) u (fails u)) (λ _ v g.
          let one : not (ltb 1 (length all)) ≡ true = g.0 in
          subst (λ x. Ensures (TookPacket s) R (first_packet all x)) (sym g.1)
            (one_message R s u all c.messages (ground arith) c.enough c.fit c.packets_are
              c.stream_is c.buffer c.same_events)))

  -- The first phase takes a ping off the stream.
  pub expect_ping-Took :
      (s : Session)
      → IsBuffer (stream s)
      → (Overrun (stream s) → R.wrong)
      → Ensures (λ _ t. Took s ping t) R (expect_ping h s)
  unfolding expect_ping
  expect_ping-Took s b wrong = and_then-Ensures _ (receive-AfterCall h R s b wrong) (λ r t q.
      and_then-Ensures _ (require-Ensures R (is_ok r.status) t (fails t)) (λ _ v g.
        and_then-Ensures _
          (subst (λ x. Ensures (TookPacket s) R (await_one h r.packets x)) (sym g.1)
            (await_one-TookPacket s t r wrong q))
          (λ p u k. Ensures-weaken (require-Ensures R (is_ping p.hdr) u (fails u)) (λ _ w e.
            let same : k.0 ≡ ping = is_ping-eq k.0 (ap (λ x. is_ping x.hdr) (sym k.1) ∙ e.0) in
            subst (Took s ping) (sym e.1) (subst (λ n. Took s n u) same k.2)))))

  -- A later phase takes a greeting off the stream and gives its payload.
  pub expect_greeting-Took :
      (s : Session)
      → IsBuffer (stream s)
      → (Overrun (stream s) → R.wrong)
      → Ensures (λ msg t. Took s (greeting msg) t) R (expect_greeting h s)
  unfolding expect_greeting
  expect_greeting-Took s b wrong = and_then-Ensures _ (receive-AfterCall h R s b wrong) (λ r t q.
      and_then-Ensures _ (await_one-TookPacket s t r wrong q) (λ p u k.
        and_then-Ensures _ (require-Ensures R (is_greeting p.hdr) u (fails u)) (λ _ w e.
          let same : k.0 ≡ greeting p.msg =
            is_greeting-eq k.0 (ap (λ x. is_greeting x.hdr) (sym k.1) ∙ e.0)
            ∙ ap (λ x. greeting x.msg) (sym k.1) in
          gives p.msg w
            (subst (Took s (greeting p.msg)) (sym e.1) (subst (λ n. Took s n u) same k.2)))))

  pub send_some-writes :
      (fd : ℤ) (m : Message) (s : Session)
      → Fits m
      → Ensures (λ _ t. t ≡ after_write fd (wire m) s) R (send_some h fd (packet_of m) s)
  unfolding send_some
  send_some-writes fd m s f =
      and_then-Ensures _ (send-writes h R fd m s f) (λ n t e.
        Ensures-weaken (require-Ensures R (not (is_zero n)) t (fails t)) (λ _ w g. g.1 ∙ e))
