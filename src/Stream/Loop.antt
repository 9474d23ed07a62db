-- ===== src/Stream/Loop.antt =====
-- The while loop of get_packets on any bytes: it ends, and cuts off whole messages.
use dirty_net.Prelude.{
  ℕ, zero, suc, ◌≤◌, ◌≡◌, refl, sym, ap, subst, ◌∙◌, List, [], ◌∷◌, ◌++◌, map, append_assoc,
  append-nil, arith, Run, done, fault, length, length-append, drop, drop-length_append, All,
  All-right,
}
use dirty_net.ByteOrder.{ByteOrder, IsByte}
use dirty_net.Memory.Laws.{erase_front-done}
use dirty_net.Packet.{Packet, complete_result, invalid_result, parse_packet}
use dirty_net.Packet.Shape.{Message, Fits, packet_of, wire, length-wire_pos}
use dirty_net.Packet.RoundTrip.{parse-wire}
use dirty_net.Packet.Reading.{waits, refuses, overruns, reads, reading}
use dirty_net.Packet.Parse.{parse_short}
use dirty_net.Packet.Outcomes.{IsBuffer}
use dirty_net.Stream.{protocol_error, Received, received_ok, parse_loop}
use dirty_net.Stream.Split.{wires, Pending}

abbrev pub refused_with : List ℕ → Received
refused_with bytes = record { status = protocol_error; packets = []; unprocessed_bytes = bytes }

loop-Pending :
    (o : ByteOrder) (fuel : ℕ) (bytes : List ℕ) (acc : List Packet)
    → length bytes ≤ fuel
    → Pending o bytes
    → parse_loop o fuel bytes acc ≡ done (received_ok acc bytes)
unfolding parse_loop
loop-Pending o fuel [] acc h e = refl
loop-Pending o zero (b ∷ bs) acc h e = absurd (omega arith)
loop-Pending o (suc fuel) (b ∷ bs) acc h e = rw e refl

loop_refused :
    (o : ByteOrder) (fuel b : ℕ) (bs : List ℕ) (acc : List Packet)
    → parse_packet o (b ∷ bs) ≡ done invalid_result
    → parse_loop o (suc fuel) (b ∷ bs) acc ≡ done (refused_with (b ∷ bs))
unfolding parse_loop
loop_refused o fuel b bs acc e = rw e refl

loop_fault :
    (o : ByteOrder) (fuel b : ℕ) (bs : List ℕ) (acc : List Packet)
    → parse_packet o (b ∷ bs) ≡ fault
    → parse_loop o (suc fuel) (b ∷ bs) acc ≡ fault
unfolding parse_loop
loop_fault o fuel b bs acc e = rw e refl

loop_complete :
    (o : ByteOrder) (fuel b : ℕ) (bs : List ℕ) (acc : List Packet) (p : Packet) (n : ℕ)
    → parse_packet o (b ∷ bs) ≡ done (complete_result p n)
    → n ≤ length (b ∷ bs)
    → parse_loop o (suc fuel) (b ∷ bs) acc ≡ parse_loop o fuel (drop n (b ∷ bs)) (acc ++ (p ∷ []))
unfolding parse_loop
loop_complete o fuel b bs acc p n e h = rw e (rw (erase_front-done (b ∷ bs) n h) refl)

-- A message at the front is taken off in one round.
pub loop_message :
    (o : ByteOrder) (fuel : ℕ) (m : Message) (rest bytes : List ℕ) (acc : List Packet)
    → Fits m
    → bytes ≡ wire m ++ rest
    → parse_loop o (suc fuel) bytes acc ≡ parse_loop o fuel rest (acc ++ (packet_of m ∷ []))
loop_message o fuel m rest [] acc f e =
    absurd (omega (arith, ap length e, length-append (wire m) rest, length-wire_pos m))
loop_message o fuel m rest (b ∷ bs) acc f e =
    loop_complete o fuel b bs acc (packet_of m) (length (wire m))
      (ap (parse_packet o) e ∙ parse-wire o m rest f)
      (omega (arith, ap length e, length-append (wire m) rest))
    ∙ ap (λ t. parse_loop o fuel t (acc ++ (packet_of m ∷ [])))
        (ap (drop (length (wire m))) e ∙ drop-length_append (wire m) rest)

-- Whole messages and a piece of one: the messages' packets, in order, and the piece is kept.
pub loop_wires :
    (o : ByteOrder) (fuel : ℕ) (ms : List Message) (piece : List ℕ) (acc : List Packet)
    → All Fits ms
    → Pending o piece
    → length (wires ms ++ piece) ≤ fuel
    → parse_loop o fuel (wires ms ++ piece) acc ≡ done (received_ok (acc ++ map packet_of ms) piece)
loop_wires o fuel [] piece acc f w h = rw append-nil (loop-Pending o fuel piece acc h w)
loop_wires o zero (m ∷ ms) piece acc f w h = absurd (
    omega (
      arith,
      length-append (wire m ++ wires ms) piece,
      length-append (wire m) (wires ms),
      length-wire_pos m,
    ))
loop_wires o (suc fuel) (m ∷ ms) piece acc f w h =
    loop_message o fuel m (wires ms ++ piece) (wires (m ∷ ms) ++ piece) acc f.0
      (append_assoc (wire m) (wires ms) piece)
    ∙ loop_wires o fuel ms piece (acc ++ (packet_of m ∷ [])) f.1 w (
        omega (
          arith,
          h,
          length-append (wire m ++ wires ms) piece,
          length-append (wire m) (wires ms),
          length-append (wires ms) piece,
          length-wire_pos m,
        ))
    ∙ ap (λ t. done (received_ok t piece)) (append_assoc acc (packet_of m ∷ []) (map packet_of ms))

-- The three ways in which the loop ends. `ms` are the messages in front, `rest` what is behind them.
pub data Ends (o : ByteOrder) (bytes : List ℕ) (acc : List Packet) (run : Run Received)
    : Type 0 where
  gathers :
      (ms : List Message) (rest : List ℕ)
      → All Fits ms
      → bytes ≡ wires ms ++ rest
      → Pending o rest
      → run ≡ done (received_ok (acc ++ map packet_of ms) rest)
      → Ends o bytes acc run
  breaks_off :
      (ms : List Message) (rest : List ℕ)
      → All Fits ms
      → bytes ≡ wires ms ++ rest
      → parse_packet o rest ≡ done invalid_result
      → run ≡ done (refused_with rest)
      → Ends o bytes acc run
  faults :
      (ms : List Message) (rest : List ℕ)
      → All Fits ms
      → bytes ≡ wires ms ++ rest
      → parse_packet o rest ≡ fault
      → run ≡ fault
      → Ends o bytes acc run

front :
    (o : ByteOrder) (bytes rest : List ℕ) (m : Message) (ms : List Message) (left : List ℕ)
    → bytes ≡ wire m ++ rest
    → rest ≡ wires ms ++ left
    → bytes ≡ wires (m ∷ ms) ++ left
front o bytes rest m ms left s t =
    s ∙ ap (λ u. wire m ++ u) t ∙ sym (append_assoc (wire m) (wires ms) left)

-- A round before an end.
round_before :
    (o : ByteOrder) (bytes rest : List ℕ) (acc : List Packet) (m : Message)
    (run run' : Run Received)
    → Fits m
    → bytes ≡ wire m ++ rest
    → run ≡ run'
    → Ends o rest (acc ++ (packet_of m ∷ [])) run'
    → Ends o bytes acc run
round_before o bytes rest acc m run run' f s r (gathers ms left g t w e) =
    gathers (m ∷ ms) left (f, g) (front o bytes rest m ms left s t) w
      (r
        ∙ e
        ∙ ap (λ t. done (received_ok t left))
            (append_assoc acc (packet_of m ∷ []) (map packet_of ms)))
round_before o bytes rest acc m run run' f s r (breaks_off ms left g t w e) =
    breaks_off (m ∷ ms) left (f, g) (front o bytes rest m ms left s t) w (r ∙ e)
round_before o bytes rest acc m run run' f s r (faults ms left g t w e) =
    faults (m ∷ ms) left (f, g) (front o bytes rest m ms left s t) w (r ∙ e)

-- On any buffer the loop ends within as many rounds as there are bytes, in one of the three ways.
pub loop-Ends :
    (o : ByteOrder) (fuel : ℕ) (bytes : List ℕ) (acc : List Packet)
    → IsBuffer bytes
    → length bytes ≤ fuel
    → Ends o bytes acc (parse_loop o fuel bytes acc)
loop-Ends o fuel [] acc b h = gathers [] [] tt refl (parse_short o [] (omega arith)) (
    loop-Pending o fuel [] acc h (parse_short o [] (omega arith))
    ∙ ap (λ t. done (received_ok t [])) (sym (append-nil acc)))
loop-Ends o zero (x ∷ xs) acc b h = absurd (omega arith)
loop-Ends o (suc fuel) (x ∷ xs) acc b h = elim (reading o (x ∷ xs) b.bytes b.short) [
  | waits r ↦ gathers [] (x ∷ xs) tt refl r (
      loop-Pending o (suc fuel) (x ∷ xs) acc h r
      ∙ ap (λ t. done (received_ok t (x ∷ xs))) (sym (append-nil acc)))
  | refuses _ _ _ _ _ _ _ r ↦ breaks_off [] (x ∷ xs) tt refl r (loop_refused o fuel x xs acc r)
  | overruns _ _ _ _ _ r ↦ faults [] (x ∷ xs) tt refl r (loop_fault o fuel x xs acc r)
  | reads m rest f s r ↦
      round_before o (x ∷ xs) rest acc m _ _ f s (loop_message o fuel m rest (x ∷ xs) acc f s) (
        loop-Ends o fuel rest (acc ++ (packet_of m ∷ []))
          (record {
            bytes = All-right IsByte (wire m) rest (subst (All IsByte) s b.bytes);
            short = omega (arith, ap length s, length-append (wire m) rest, b.short);
          })
          (omega (arith, h, ap length s, length-append (wire m) rest, length-wire_pos m)))
]
