-- ===== src/Session/Collect.antt =====
-- The loops that collect packets: they end, and what they give are the next messages of the stream.
use dirty_net.Prelude.{
  ℕ, zero, suc, ◌≤◌, ◌<◌, ◌≡◌, ◌≢◌, refl, sym, ap, subst, ◌∙◌, List, [], ◌++◌, map, append_assoc,
  done, arith, length, All, All-append, lt→ltb,
}
use mathlib.Core.List.{map-append}
use native.Mathlib.Decide.{dec_lt}
use dirty_net.Prelude.Int.{negsuc}
use dirty_net.Packet.{Packet, invalid_result, parse_packet}
use dirty_net.Packet.Shape.{Message, Fits, packet_of}
use dirty_net.Packet.Outcomes.{IsBuffer}
use dirty_net.Stream.{ok_packets, Received}
use dirty_net.Stream.Split.{wires, wires-append}
use dirty_net.Session.{
  Session, Host, M, next, returns, and_then, return_code, receive, collect, collect_all,
}
use dirty_net.Session.Ensures.{Ending, Ensures, gives, quits, and_then-Ensures}
use dirty_net.Stream.Overrun.{Overrun, Overrun-behind}
use dirty_net.Session.Receive.{
  stream, AfterCall, Came, packets_came, nothing_came, bad_bytes_came, receive-AfterCall,
  receive_bad,
}

-- The packets are those of the next messages of the stream, and at least `want`.
pub record Collected (s : Session) (want : ℕ) (all : List Packet) (t : Session) : Type 0 where
  pub messages : List Message
  pub fit : All Fits messages
  pub packets_are : all ≡ map packet_of messages
  pub stream_is : stream s ≡ wires messages ++ stream t
  pub buffer : IsBuffer (stream t)
  pub same_events : t.events ≡ s.events
  pub enough : want ≤ length all

abbrev pub go_on : Host → ℕ → ℕ → List Packet → Received → M (List Packet)
go_on h fuel want all r = elim r.status [
  | ok_packets ↦ collect h fuel want (all ++ r.packets)
  | _ ↦ return_code (negsuc 0)
]

pub collect_enough :
    (h : Host) (fuel want : ℕ) (all : List Packet) (s : Session)
    → want ≤ length all
    → collect h fuel want all s ≡ next all s
unfolding collect
collect_enough h zero want all s e = ground arith
collect_enough h (suc fuel) want all s e = ground arith

pub collect_more :
    (h : Host) (fuel want : ℕ) (all : List Packet) (s : Session)
    → length all < want
    → collect h (suc fuel) want all s ≡ and_then (receive h s) (go_on h fuel want all)
unfolding collect
collect_more h fuel want all s e = rw (lt→ltb (length all) want e) refl

pub go_on-ok :
    (h : Host) (fuel want : ℕ) (all : List Packet) (r : Received) (t : Session)
    → r.status ≡ ok_packets
    → go_on h fuel want all r t ≡ collect h fuel want (all ++ r.packets) t
go_on-ok h fuel want all r t e = ground arith

pub go_on_fails :
    (h : Host) (fuel want : ℕ) (all : List Packet) (r : Received) (t : Session)
    → r.status ≢ ok_packets
    → go_on h fuel want all r t ≡ returns (negsuc 0) t
go_on_fails h fuel want all r t e = ground arith

module _ (h : Host) (R : Ending) (fails : (t : Session) → R.returned (negsuc 0) t) where
  go_on_quits :
      (Q : List Packet → Session → Type 0) (fuel want : ℕ) (all : List Packet) (r : Received)
      (t : Session)
      → r.status ≢ ok_packets
      → Ensures Q R (go_on h fuel want all r t)
  go_on_quits Q fuel want all r t n =
      subst (Ensures Q R) (sym (go_on_fails h fuel want all r t n)) (quits (negsuc 0) t (fails t))

  -- With refused bytes in front and a packet missing, the loop ends main.
  collect_bad :
      (Q : List Packet → Session → Type 0) (fuel want : ℕ) (all : List Packet) (s : Session)
      → length all < want
      → IsBuffer (stream s)
      → parse_packet h.byte_order s.unprocessed_bytes ≡ done invalid_result
      → Ensures Q R (collect h (suc fuel) want all s)
  collect_bad Q fuel want all s few b bad =
      subst (Ensures Q R) (sym (collect_more h fuel want all s few)) (
        and_then-Ensures (go_on h fuel want all) (receive_bad h R s b bad)
          (λ r t n. go_on_quits Q fuel want all r t n))

  -- A round behind a call, where `again` are the rounds after it.
  round :
      (s₀ : Session) (fuel want : ℕ) (all : List Packet) (ms : List Message) (s : Session)
      (again : (all' : List Packet) (ms' : List Message) (t : Session)
        → length t.reads < fuel
        → All Fits ms'
        → all' ≡ map packet_of ms'
        → stream s₀ ≡ wires ms' ++ stream t
        → IsBuffer (stream t)
        → t.events ≡ s₀.events
        → Ensures (Collected s₀ want) R (collect h fuel want all' t))
      (r : Received) (t : Session)
      → length all < want
      → length s.reads < suc fuel
      → All Fits ms
      → all ≡ map packet_of ms
      → stream s₀ ≡ wires ms ++ stream s
      → s.events ≡ s₀.events
      → AfterCall h.byte_order s r t
      → Came h.byte_order s t r
      → Ensures (Collected s₀ want) R (go_on h fuel want all r t)
  round s₀ fuel want all ms s again r t w few f p e k q (packets_came ns g ok ps split less) =
      subst (Ensures (Collected s₀ want) R) (sym (go_on-ok h fuel want all r t ok)) (
        again (all ++ r.packets) (ms ++ ns) t (omega arith) (All-append Fits ms ns f g)
          (cc (p, ps, map-append packet_of ms ns))
          (e
            ∙ ap (λ x. wires ms ++ x) split
            ∙ sym (append_assoc (wires ms) (wires ns) (stream t))
            ∙ ap (λ x. x ++ stream t) (sym (wires-append ms ns)))
          q.buffer (q.same_events ∙ k))
  round s₀ fuel want all ms s again r t w few f p e k q (nothing_came n _ _) =
      go_on_quits (Collected s₀ want) fuel want all r t n
  round s₀ fuel want all ms s again r t w few f p e k q (bad_bytes_came n _ _) =
      go_on_quits (Collected s₀ want) fuel want all r t n

  -- From packets that are those of messages in front of the stream to the packets wanted.
  collect-Collected :
      (s₀ : Session) (wrong : Overrun (stream s₀) → R.wrong) (fuel want : ℕ) (all : List Packet)
      (ms : List Message) (s : Session)
      → length s.reads < fuel
      → All Fits ms
      → all ≡ map packet_of ms
      → stream s₀ ≡ wires ms ++ stream s
      → IsBuffer (stream s)
      → s.events ≡ s₀.events
      → Ensures (Collected s₀ want) R (collect h fuel want all s)
  collect-Collected s₀ wrong zero want all ms s few f p e b k = absurd (omega arith)
  collect-Collected s₀ wrong (suc fuel) want all ms s few f p e b k =
      elim (dec_lt (length all) want) [
        | no h' ↦
            subst (Ensures (Collected s₀ want) R)
              (sym (collect_enough h (suc fuel) want all s (omega arith)))
              (gives all s (record {
                messages = ms;
                fit = f;
                packets_are = p;
                stream_is = e;
                buffer = b;
                same_events = k;
                enough = omega arith;
              }))
        | yes h' ↦ subst (Ensures (Collected s₀ want) R) (sym (collect_more h fuel want all s h')) (
            and_then-Ensures (go_on h fuel want all)
              (receive-AfterCall h R s b
                (λ v. wrong (Overrun-behind (stream s₀) (stream s) ms e v)))
              (λ r t q.
                round s₀ fuel want all ms s (collect-Collected s₀ wrong fuel want) r t h' few f p e
                  k q q.came))
      ]

  -- The whole loop, behind a first call: the packets of the next messages, at least `want`.
  pub collect_all-Collected :
      (s t : Session) (r : Received) (want : ℕ)
      → 0 < want
      → (Overrun (stream s) → R.wrong)
      → AfterCall h.byte_order s r t
      → Ensures (Collected s want) R (collect_all h want r.packets t)
  unfolding collect_all
  collect_all-Collected s t r want some_wanted wrong q = first q.came
    where
      first :
          Came h.byte_order s t r
          → Ensures (Collected s want) R (collect h (suc (length t.reads)) want r.packets t)
      first (packets_came ns g ok ps split less) =
          collect-Collected s wrong (suc (length t.reads)) want r.packets ns t (omega arith) g ps
            split q.buffer q.same_events
      first (nothing_came n ps same) =
          collect-Collected s wrong (suc (length t.reads)) want r.packets [] t (omega arith) tt ps
            same q.buffer q.same_events
      first (bad_bytes_came n ps bad) =
          collect_bad (Collected s want) (length t.reads) want r.packets t
            (omega (arith, ap length ps)) q.buffer bad
