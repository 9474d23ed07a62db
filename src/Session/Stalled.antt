-- ===== src/Session/Stalled.antt =====
-- The loops that collect packets, when the connection gives out before the messages are whole.
use dirty_net.Prelude.{
  length-map, ℕ, zero, suc, ◌+◌, ◌<◌, ◌≡◌, refl, ap, subst, ◌∙◌, List, [], ◌∷◌, ◌++◌, map, arith,
  length, length-append, All, All-right,
}
use dirty_net.Prelude.Int.{negsuc}
use dirty_net.Packet.{Packet}
use dirty_net.Packet.Shape.{Message, Fits, packet_of}
use dirty_net.Stream.{closed, got, Received, received_ok, get_packets}
use dirty_net.Stream.Split.{wires}
use dirty_net.Stream.Chunks.{concat, IsChunk}
use dirty_net.Session.{
  Host, Event, Exit, next, returns, and_then, receive, deliver, collect, collect_all,
}
use dirty_net.Session.Collect.{go_on, collect_more, go_on-ok, go_on_fails}
use dirty_net.Session.Receive.{closed-ne-ok}
use dirty_net.Session.Batch.{session, Arrived, receive-Arrived, some_missing}

-- main returns -1 when all reads are used up, and has made the calls `es`.
abbrev pub Stalls : {A : Type 0} → Exit A → List Event → Type 0
Stalls e es = (u : List ℕ) × (e ≡ returns (negsuc 0) (session [] u es))

abbrev end_of_reads : List ℕ → Received
end_of_reads u = record { status = closed; packets = []; unprocessed_bytes = u }

pub receive_end :
    (h : Host) (u : List ℕ) (es : List Event)
    → receive h (session [] u es) ≡ next (end_of_reads u) (session [] u es)
unfolding receive deliver get_packets
receive_end h u es = refl

some_message :
    (cs : List (List ℕ)) (rest : List ℕ) (ms : List Message) (u : List ℕ)
    → All IsChunk (cs ++ (rest ∷ []))
    → u ++ concat (cs ++ (rest ∷ [])) ≡ wires ms
    → 0 < length ms
some_message [] rest ms u k e = some_missing rest [] ms u k.0 e
some_message (c ∷ cs) rest ms u k e = some_missing c (cs ++ (rest ∷ [])) ms u k.0 e

-- `rest` is what has not arrived of the messages wanted.
pub collect-Stalls :
    (h : Host) (cs : List (List ℕ)) (rest : List ℕ) (fuel want : ℕ) (all : List Packet)
    (ms : List Message) (u : List ℕ) (es : List Event)
    → length cs < fuel
    → want ≡ length all + length ms
    → All IsChunk (cs ++ (rest ∷ []))
    → All Fits ms
    → u ++ concat (cs ++ (rest ∷ [])) ≡ wires ms
    → Stalls (collect h fuel want all (session (map got cs) u es)) es
collect-Stalls h cs rest zero want all ms u es l n k f e = absurd (omega arith)
collect-Stalls h [] rest (suc fuel) want all ms u es l n k f e = (
  u,
  collect_more h fuel want all (session [] u es) (omega (arith, n, some_message [] rest ms u k e))
      ∙ ap (λ x. and_then x (go_on h fuel want all)) (receive_end h u es)
      ∙ go_on_fails h fuel want all (end_of_reads u) (session [] u es) closed-ne-ok,
)
collect-Stalls h (c ∷ cs) rest (suc fuel) want all ms u es l n k f e =
    let a : Arrived h c (cs ++ (rest ∷ [])) ms u (map got cs) es =
      receive-Arrived h c (cs ++ (rest ∷ [])) ms u (map got cs) es k.0 f e in
    let got_now : List Packet = map packet_of a.whole in
    let (v, later) =
      collect-Stalls h cs rest fuel want (all ++ got_now) a.rest a.piece es (omega arith)
        (omega (
          arith,
          n,
          ap length a.messages,
          length-append a.whole a.rest,
          length-append all got_now,
          length-map packet_of a.whole,
        ))
        k.1 (All-right Fits a.whole a.rest (subst (All Fits) a.messages f)) a.rest_is in
    (
      v,
      collect_more h fuel want all _ (omega (arith, n, some_message (c ∷ cs) rest ms u k e))
          ∙ ap (λ x. and_then x (go_on h fuel want all)) a.call
          ∙ go_on-ok h fuel want all (received_ok got_now a.piece) _ refl
          ∙ later,
    )

-- The loop behind a first call that has used up a read.
pub collect_all-Stalls :
    (h : Host) (c : List ℕ) (cs : List (List ℕ)) (rest : List ℕ) (ms : List Message)
    (es : List Event)
    → All IsChunk (c ∷ (cs ++ (rest ∷ [])))
    → All Fits ms
    → (a : Arrived h c (cs ++ (rest ∷ [])) ms [] (map got cs) es)
    → Stalls
        (collect_all h (length ms) (map packet_of a.whole) (session (map got cs) a.piece es))
        es
unfolding collect_all
collect_all-Stalls h c cs rest ms es k f a =
    collect-Stalls h cs rest (suc (length (map got cs))) (length ms) (map packet_of a.whole) a.rest
      a.piece es (omega (arith, length-map got cs))
      (omega
        (arith, ap length a.messages, length-append a.whole a.rest, length-map packet_of a.whole))
      k.1 (All-right Fits a.whole a.rest (subst (All Fits) a.messages f)) a.rest_is
