-- ===== src/Session/Receive.antt =====
-- One call of get_packets on a connection.
use dirty_net.Prelude.{
  ℕ, ◌<◌, ◌≡◌, ◌≢◌, refl, sym, ap, subst, ◌∙◌, List, [], ◌∷◌, ◌++◌, map, append_assoc, Run, done,
  fault, arith, length, All,
}
use dirty_net.ByteOrder.{ByteOrder}
use dirty_net.Packet.{invalid_result, parse_packet}
use dirty_net.Packet.Shape.{Message, Fits, packet_of, wire}
use dirty_net.Packet.RoundTrip.{parse-wire}
use dirty_net.Packet.Outcomes.{IsBuffer, parse_final}
use dirty_net.Stream.{
  ok_packets, closed, socket_error, ReadResult, failed, got, Received, get_packets,
}
use dirty_net.Stream.Split.{wires, Pending}
use dirty_net.Stream.Loop.{Ends, gathers, breaks_off, faults}
use dirty_net.Stream.Overrun.{IsBuffer-back, IsBuffer-front, Overrun, Overrun-behind, fault-Overrun}
use dirty_net.Stream.Chunks.{get_packets-Ends}
use dirty_net.Session.{Event, next, Session, Host, receive, deliver}
use dirty_net.Session.Ensures.{Ending, Ensures, gives, goes_wrong}

-- The bytes that read() will still give, and all that are not yet parsed.
abbrev pub incoming : List ReadResult → List ℕ
incoming [] = []
incoming (failed ∷ rs) = incoming rs
incoming (got c ∷ rs) = c ++ incoming rs

abbrev pub stream : Session → List ℕ
stream s = s.unprocessed_bytes ++ incoming s.reads

-- What came of one call.
pub data Came (o : ByteOrder) (s t : Session) (r : Received) : Type 0 where
  packets_came :
      (ms : List Message)
      → All Fits ms
      → r.status ≡ ok_packets
      → r.packets ≡ map packet_of ms
      → stream s ≡ wires ms ++ stream t
      → length t.reads < length s.reads
      → Came o s t r
  nothing_came : r.status ≢ ok_packets → r.packets ≡ [] → stream s ≡ stream t → Came o s t r
  bad_bytes_came :
      r.status ≢ ok_packets
      → r.packets ≡ []
      → parse_packet o t.unprocessed_bytes ≡ done invalid_result
      → Came o s t r

pub record AfterCall (o : ByteOrder) (s : Session) (r : Received) (t : Session) : Type 0 where
  pub came : Came o s t r
  pub buffer : IsBuffer (stream t)
  pub same_events : t.events ≡ s.events

abbrev session : List ReadResult → List ℕ → List Event → Session
session rs u es = record { reads = rs; unprocessed_bytes = u; events = es }

-- A read that gave bytes.
after_bytes :
    (o : ByteOrder) (R : Ending) (c : List ℕ) (rs : List ReadResult) (u : List ℕ) (es : List Event)
    (run : Run Received)
    → IsBuffer (u ++ (c ++ incoming rs))
    → (Overrun (u ++ (c ++ incoming rs)) → R.wrong)
    → Ends o (u ++ c) [] run
    → Ensures (AfterCall o (session (got c ∷ rs) u es)) R (deliver (session rs u es) run)
unfolding deliver
after_bytes o R c rs u es run b wrong (gathers ms rest f e w r) =
    let split : u ++ (c ++ incoming rs) ≡ wires ms ++ (rest ++ incoming rs) =
      sym (append_assoc u c (incoming rs))
      ∙ ap (λ t. t ++ incoming rs) e
      ∙ append_assoc (wires ms) rest (incoming rs) in
    rw r (
      gives _ _ (record {
        came = packets_came ms f refl refl split (omega arith);
        buffer = IsBuffer-back (wires ms) (rest ++ incoming rs) (u ++ (c ++ incoming rs)) split b;
        same_events = refl;
      }))
after_bytes o R c rs u es run b wrong (breaks_off ms rest f e w r) =
    let split : u ++ (c ++ incoming rs) ≡ wires ms ++ (rest ++ incoming rs) =
      sym (append_assoc u c (incoming rs))
      ∙ ap (λ t. t ++ incoming rs) e
      ∙ append_assoc (wires ms) rest (incoming rs) in
    rw r (
      gives _ _ (record {
        came = bad_bytes_came (λ x. cc) refl w;
        buffer = IsBuffer-back (wires ms) (rest ++ incoming rs) (u ++ (c ++ incoming rs)) split b;
        same_events = refl;
      }))
after_bytes o R c rs u es run b wrong (faults ms rest f e w r) =
    let split : u ++ (c ++ incoming rs) ≡ wires ms ++ (rest ++ incoming rs) =
      sym (append_assoc u c (incoming rs))
      ∙ ap (λ t. t ++ incoming rs) e
      ∙ append_assoc (wires ms) rest (incoming rs) in
    rw r (
      goes_wrong (
        wrong (
          Overrun-behind _ (rest ++ incoming rs) ms split (
            fault-Overrun o rest (incoming rs)
              (IsBuffer-front rest (incoming rs)
                (IsBuffer-back (wires ms) (rest ++ incoming rs) _ split b))
              w))))

pub closed-ne-ok : closed ≢ ok_packets
closed-ne-ok e = cc

socket_error-ne-ok : socket_error ≢ ok_packets
socket_error-ne-ok e = cc

-- A read that gave none.
after_none :
    (o : ByteOrder) (R : Ending) (s t : Session) (r : Received)
    → r.status ≢ ok_packets
    → r.packets ≡ []
    → stream s ≡ stream t
    → IsBuffer (stream t)
    → t.events ≡ s.events
    → Ensures (AfterCall o s) R (next r t)
after_none o R s t r n e same b k =
    gives r t (record { came = nothing_came n e same; buffer = b; same_events = k })

receive_from :
    (h : Host) (R : Ending) (rs : List ReadResult) (u : List ℕ) (es : List Event)
    → IsBuffer (u ++ incoming rs)
    → (Overrun (u ++ incoming rs) → R.wrong)
    → Ensures (AfterCall h.byte_order (session rs u es)) R (receive h (session rs u es))
unfolding receive deliver get_packets
receive_from h R [] u es b wrong = after_none h.byte_order R _ _ _ closed-ne-ok refl refl b refl
receive_from h R (failed ∷ rs) u es b wrong =
    after_none h.byte_order R _ _ _ socket_error-ne-ok refl refl b refl
receive_from h R (got [] ∷ rs) u es b wrong =
    after_none h.byte_order R _ _ _ closed-ne-ok refl refl b refl
receive_from h R (got (x ∷ xs) ∷ rs) u es b wrong =
    after_bytes h.byte_order R (x ∷ xs) rs u es _ b wrong (
      get_packets-Ends h.byte_order (x ∷ xs) u (λ e. cc)
        (IsBuffer-front (u ++ (x ∷ xs)) (incoming rs)
          (subst IsBuffer (sym (append_assoc u (x ∷ xs) (incoming rs))) b)))

-- One call on any connection.
pub receive-AfterCall :
    (h : Host) (R : Ending) (s : Session)
    → IsBuffer (stream s)
    → (Overrun (stream s) → R.wrong)
    → Ensures (AfterCall h.byte_order s) R (receive h s)
receive-AfterCall h R s b wrong = receive_from h R s.reads s.unprocessed_bytes s.events b wrong

-- Bytes that the parser refuses stay in front: no later call succeeds.
not_gathered :
    (o : ByteOrder) (bytes : List ℕ) (ms : List Message) (rest : List ℕ)
    → parse_packet o bytes ≡ done invalid_result
    → All Fits ms
    → bytes ≡ wires ms ++ rest
    → Pending o rest
    → ⊥
not_gathered o bytes [] rest bad f e w = absurd (cc (ap (parse_packet o) e, bad, w))
not_gathered o bytes (m ∷ ms) rest bad f e w = absurd (
    cc (
      ap (parse_packet o) (e ∙ append_assoc (wire m) (wires ms) rest),
      bad,
      parse-wire o m (wires ms ++ rest) f.0,
    ))

not_faulted :
    (o : ByteOrder) (bytes : List ℕ) (ms : List Message) (rest : List ℕ)
    → parse_packet o bytes ≡ done invalid_result
    → All Fits ms
    → bytes ≡ wires ms ++ rest
    → parse_packet o rest ≡ fault
    → ⊥
not_faulted o bytes [] rest bad f e w = absurd (cc (ap (parse_packet o) e, bad, w))
not_faulted o bytes (m ∷ ms) rest bad f e w = absurd (
    cc (
      ap (parse_packet o) (e ∙ append_assoc (wire m) (wires ms) rest),
      bad,
      parse-wire o m (wires ms ++ rest) f.0,
    ))

bad_bytes :
    (o : ByteOrder) (R : Ending) (bytes : List ℕ) (t : Session) (run : Run Received)
    → parse_packet o bytes ≡ done invalid_result
    → Ends o bytes [] run
    → Ensures (λ r _. r.status ≢ ok_packets) R (deliver t run)
unfolding deliver
bad_bytes o R bytes t run bad (gathers ms rest f e w r) =
    absurd (not_gathered o bytes ms rest bad f e w)
bad_bytes o R bytes t run bad (breaks_off ms rest f e w r) = rw r (gives _ _ (λ x. cc))
bad_bytes o R bytes t run bad (faults ms rest f e w r) =
    absurd (not_faulted o bytes ms rest bad f e w)

receive_bad_from :
    (h : Host) (R : Ending) (rs : List ReadResult) (u : List ℕ) (es : List Event)
    → IsBuffer (u ++ incoming rs)
    → parse_packet h.byte_order u ≡ done invalid_result
    → Ensures (λ r _. r.status ≢ ok_packets) R (receive h (session rs u es))
unfolding receive deliver get_packets
receive_bad_from h R [] u es b bad = gives _ _ closed-ne-ok
receive_bad_from h R (failed ∷ rs) u es b bad = gives _ _ socket_error-ne-ok
receive_bad_from h R (got [] ∷ rs) u es b bad = gives _ _ closed-ne-ok
receive_bad_from h R (got (x ∷ xs) ∷ rs) u es b bad =
    let c : List ℕ = x ∷ xs in
    let whole : IsBuffer (u ++ c) =
      IsBuffer-front (u ++ c) (incoming rs)
        (subst IsBuffer (sym (append_assoc u c (incoming rs))) b) in
    bad_bytes h.byte_order R (u ++ c) (session rs u es) _
      (parse_final h.byte_order u c whole (λ e. absurd (cc (e, bad))) ∙ bad)
      (get_packets-Ends h.byte_order c u (λ e. cc) whole)

pub receive_bad :
    (h : Host) (R : Ending) (s : Session)
    → IsBuffer (stream s)
    → parse_packet h.byte_order s.unprocessed_bytes ≡ done invalid_result
    → Ensures (λ r _. r.status ≢ ok_packets) R (receive h s)
receive_bad h R s b bad = receive_bad_from h R s.reads s.unprocessed_bytes s.events b bad
