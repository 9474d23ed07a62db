-- ===== src/Stream/Chunks.antt =====
-- get_packets call after call: how TCP cuts the stream into reads does not matter.
use dirty_net.Prelude.{
  ℕ, ◌≡◌, ◌≢◌, refl, sym, ap, subst, ◌∙◌, List, [], ◌∷◌, ◌++◌, map, append_assoc, append-nil, arith,
  Run, done, ◌>>=◌, length, All, All-left, All-right,
}
use mathlib.Core.List.{map-append}
use dirty_net.ByteOrder.{ByteOrder}
use dirty_net.Packet.{Packet, parse_packet}
use dirty_net.Packet.Shape.{Message, Fits, packet_of}
use dirty_net.Packet.RoundTrip.{parse-wire}
use dirty_net.Packet.Parse.{parse_short}
use dirty_net.Packet.Outcomes.{IsBuffer}
use dirty_net.Stream.{ok_packets, ReadResult, got, Received, received_ok, parse_loop, get_packets}
use dirty_net.Stream.Split.{wires, Pending, cut}
use dirty_net.Stream.Loop.{loop_wires, Ends, loop-Ends}

abbrev pub concat : List (List ℕ) → List ℕ
concat [] = []
concat (c ∷ cs) = c ++ concat cs

abbrev pub IsChunk : List ℕ → Type 0
IsChunk c = c ≢ []

-- A caller that calls get_packets for each read and appends the packets, until a call fails.
pub gather : ByteOrder → List ReadResult → Received → Run Received
gather o [] r = done r
gather o (c ∷ cs) r = do
  s ← get_packets o c r.unprocessed_bytes
  elim s.status [
    | ok_packets ↦ gather o cs (received_ok (r.packets ++ s.packets) s.unprocessed_bytes)
    | _ ↦ done s
  ]

pub get_packets-got :
    (o : ByteOrder) (c u : List ℕ)
    → c ≢ []
    → get_packets o (got c) u ≡ parse_loop o (length (u ++ c)) (u ++ c) []
unfolding get_packets
get_packets-got o [] u h = absurd (h refl)
get_packets-got o (b ∷ bs) u h = refl

pub nothing_left :
    (o : ByteOrder) (ms : List Message) (u : List ℕ)
    → All Fits ms
    → Pending o u
    → u ++ [] ≡ wires ms
    → (ms ≡ []) × (u ≡ [])
nothing_left o [] u f w e = (refl, sym (append-nil u) ∙ e)
nothing_left o (m ∷ ms) u f w e =
    absurd (cc (w, ap (parse_packet o) (sym (append-nil u) ∙ e), parse-wire o m (wires ms) f.0))

gather_from :
    (o : ByteOrder) (cs : List (List ℕ)) (ms : List Message) (u : List ℕ) (acc : List Packet)
    → All IsChunk cs
    → All Fits ms
    → Pending o u
    → u ++ concat cs ≡ wires ms
    → gather o (map got cs) (received_ok acc u) ≡ done (received_ok (acc ++ map packet_of ms) [])
unfolding gather
gather_from o [] ms u acc k f w e =
    let (no_ms, no_u) = nothing_left o ms u f w e in rw (no_ms, no_u, append-nil) refl
gather_from o (c ∷ cs) ms u acc k f w e =
    let t = cut o ms (u ++ c) (concat cs) f (append_assoc u c (concat cs) ∙ e) in
    let fits : All Fits (t.whole ++ t.later) = subst (All Fits) t.messages f in
    let call : get_packets o (got c) u ≡ done (received_ok (map packet_of t.whole) t.piece) =
      get_packets-got o c u k.0
      ∙ ap (λ x. parse_loop o (length x) x []) t.front_is
      ∙ loop_wires o (length (wires t.whole ++ t.piece)) t.whole t.piece []
          (All-left Fits t.whole t.later fits) t.pending (omega arith) in
    rw call (
      gather_from o cs t.later t.piece (acc ++ map packet_of t.whole) k.1
        (All-right Fits t.whole t.later fits) t.pending t.rest_is
      ∙ ap (λ x. done (received_ok x []))
          (append_assoc acc (map packet_of t.whole) (map packet_of t.later)
            ∙ ap (λ x. acc ++ x)
                (sym (map-append packet_of t.whole t.later) ∙ ap (map packet_of) (sym t.messages))))

-- Messages sent one behind the other arrive whole and in order, with nothing left over, however TCP cuts their bytes into non-empty reads.
pub gather-wires :
    (o : ByteOrder) (ms : List Message) (cs : List (List ℕ))
    → All Fits ms
    → All IsChunk cs
    → concat cs ≡ wires ms
    → gather o (map got cs) (received_ok [] []) ≡ done (received_ok (map packet_of ms) [])
gather-wires o ms cs f k e = gather_from o cs ms [] [] k f (parse_short o [] (omega arith)) e

-- One call of get_packets that reads bytes, on any buffer below 4 GiB, ends in one of three ways. The bytes kept before and the new ones are whole messages and a piece of one: the packets are theirs, in order, and the piece is kept. Or the parser refuses what stands behind some messages: the status is protocol_error and no packet is given. Or it reads out of bounds there. So the loop never runs out of rounds.
pub get_packets-Ends :
    (o : ByteOrder) (c u : List ℕ)
    → IsChunk c
    → IsBuffer (u ++ c)
    → Ends o (u ++ c) [] (get_packets o (got c) u)
get_packets-Ends o c u h b =
    subst (Ends o (u ++ c) []) (sym (get_packets-got o c u h))
      (loop-Ends o (length (u ++ c)) (u ++ c) [] b (omega arith))
