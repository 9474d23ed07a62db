-- ===== src/Session/Batch.antt =====
-- The loops that collect packets, when the peer sends as many messages as are wanted: they end with
-- the packets of these messages, however the bytes are cut.
use dirty_net.Prelude.{
  length-map, ℕ, zero, suc, ◌+◌, ◌≤◌, ◌<◌, ◌≡◌, refl, sym, ap, subst, ◌∙◌, List, [], ◌∷◌, ◌++◌, map,
  append_assoc, append-nil, done, arith, length, length-append, All, All-left, All-right,
}
use mathlib.Core.List.{map-append}
use dirty_net.ByteOrder.{ByteOrder}
use dirty_net.Packet.{Packet}
use dirty_net.Packet.Shape.{Message, Fits, packet_of}
use dirty_net.Stream.{ReadResult, got, received_ok, parse_loop, get_packets}
use dirty_net.Stream.Split.{wires, Pending, cut}
use dirty_net.Stream.Loop.{loop_wires}
use dirty_net.Stream.Chunks.{concat, IsChunk, get_packets-got, nothing_left}
use dirty_net.Session.{Session, Host, Event, next, and_then, receive, deliver, collect, collect_all}
use dirty_net.Session.Collect.{go_on, collect_enough, collect_more, go_on-ok}

abbrev pub session : List ReadResult → List ℕ → List Event → Session
session rs u es = record { reads = rs; unprocessed_bytes = u; events = es }

-- What the answers of read() hold at the least.
length-reads :
    (cs : List (List ℕ)) (later : List ReadResult) → length cs ≤ length (map got cs ++ later)
length-reads [] later = omega arith
length-reads (c ∷ cs) later = omega (arith, length-reads cs later)

-- One call: the messages that are complete by now, and the piece of the next one.
pub record Arrived (h : Host) (c : List ℕ) (cs : List (List ℕ)) (ms : List Message) (u : List ℕ)
    (later : List ReadResult) (es : List Event) : Type 0 where
  pub whole : List Message
  pub rest : List Message
  pub piece : List ℕ
  pub messages : ms ≡ whole ++ rest
  pub rest_is : piece ++ concat cs ≡ wires rest
  pub pending : Pending h.byte_order piece
  pub call :
      receive h (session (got c ∷ later) u es)
      ≡ next (received_ok (map packet_of whole) piece) (session later piece es)

pub receive-Arrived :
    (h : Host) (c : List ℕ) (cs : List (List ℕ)) (ms : List Message) (u : List ℕ)
    (later : List ReadResult) (es : List Event)
    → IsChunk c
    → All Fits ms
    → u ++ concat (c ∷ cs) ≡ wires ms
    → Arrived h c cs ms u later es
unfolding receive deliver
receive-Arrived h c cs ms u later es k f e =
    let o : ByteOrder = h.byte_order in
    let t = cut o ms (u ++ c) (concat cs) f (append_assoc u c (concat cs) ∙ e) in
    let fits : All Fits (t.whole ++ t.later) = subst (All Fits) t.messages f in
    let read : get_packets o (got c) u ≡ done (received_ok (map packet_of t.whole) t.piece) =
      get_packets-got o c u k
      ∙ ap (λ x. parse_loop o (length x) x []) t.front_is
      ∙ loop_wires o (length (wires t.whole ++ t.piece)) t.whole t.piece []
          (All-left Fits t.whole t.later fits) t.pending (omega arith) in
    record {
      whole = t.whole;
      rest = t.later;
      piece = t.piece;
      messages = t.messages;
      rest_is = t.rest_is;
      pending = t.pending;
      call = ap (deliver (session later u es)) read;
    }

pub some_missing :
    (c : List ℕ) (cs : List (List ℕ)) (ms : List Message) (u : List ℕ)
    → IsChunk c
    → u ++ concat (c ∷ cs) ≡ wires ms
    → 0 < length ms
some_missing [] cs ms u k e = absurd (k refl)
some_missing (b ∷ bs) cs [] u k e = absurd (
    omega (
      arith,
      ap length e,
      length-append u ((b ∷ bs) ++ concat cs),
      length-append (b ∷ bs) (concat cs),
    ))
some_missing (b ∷ bs) cs (m ∷ ms) u k e = omega arith

pub collect_batch :
    (h : Host) (cs : List (List ℕ)) (fuel want : ℕ) (all : List Packet) (ms : List Message)
    (u : List ℕ) (later : List ReadResult) (es : List Event)
    → length cs ≤ fuel
    → want ≡ length all + length ms
    → All IsChunk cs
    → All Fits ms
    → Pending h.byte_order u
    → u ++ concat cs ≡ wires ms
    → collect h fuel want all (session (map got cs ++ later) u es)
      ≡ next (all ++ map packet_of ms) (session later [] es)
collect_batch h [] fuel want all ms u later es l n k f p e =
    let (no_ms, no_u) = nothing_left h.byte_order ms u f p e in
    collect_enough h fuel want all (session later u es) (omega (arith, n, ap length no_ms))
    ∙ ap (λ x. next all (session later x es)) no_u
    ∙ ap (λ x. next x (session later [] es))
        (sym (append-nil all) ∙ ap (λ x. all ++ map packet_of x) (sym no_ms))
collect_batch h (c ∷ cs) zero want all ms u later es l n k f p e = absurd (omega arith)
collect_batch h (c ∷ cs) (suc fuel) want all ms u later es l n k f p e =
    let a : Arrived h c cs ms u (map got cs ++ later) es =
      receive-Arrived h c cs ms u (map got cs ++ later) es k.0 f e in
    let got_now : List Packet = map packet_of a.whole in
    collect_more h fuel want all _ (omega (arith, n, some_missing c cs ms u k.0 e))
    ∙ ap (λ x. and_then x (go_on h fuel want all)) a.call
    ∙ go_on-ok h fuel want all (received_ok got_now a.piece) _ refl
    ∙ collect_batch h cs fuel want (all ++ got_now) a.rest a.piece later es (omega arith)
        (omega (
          arith,
          n,
          ap length a.messages,
          length-append a.whole a.rest,
          length-append all got_now,
          length-map packet_of a.whole,
        ))
        k.1 (All-right Fits a.whole a.rest (subst (All Fits) a.messages f)) a.pending a.rest_is
    ∙ ap (λ x. next x (session later [] es))
        (append_assoc all got_now (map packet_of a.rest)
          ∙ ap (λ x. all ++ x)
              (sym (map-append packet_of a.whole a.rest) ∙ ap (map packet_of) (sym a.messages)))

-- The loop behind that call.
pub collect_all-Arrived :
    (h : Host) (c : List ℕ) (cs : List (List ℕ)) (ms : List Message) (u : List ℕ)
    (later : List ReadResult) (es : List Event)
    → All IsChunk cs
    → All Fits ms
    → (a : Arrived h c cs ms u (map got cs ++ later) es)
    → collect_all h (length ms) (map packet_of a.whole) (session (map got cs ++ later) a.piece es)
      ≡ next (map packet_of ms) (session later [] es)
unfolding collect_all
collect_all-Arrived h c cs ms u later es k f a =
    collect_batch h cs (suc (length (map got cs ++ later))) (length ms) (map packet_of a.whole)
      a.rest a.piece later es (omega (arith, length-reads cs later))
      (omega
        (arith, ap length a.messages, length-append a.whole a.rest, length-map packet_of a.whole))
      k (All-right Fits a.whole a.rest (subst (All Fits) a.messages f)) a.pending a.rest_is
    ∙ ap (λ x. next x (session later [] es))
        (sym (map-append packet_of a.whole a.rest) ∙ ap (map packet_of) (sym a.messages))
