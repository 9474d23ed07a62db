-- ===== src/Packet/Outcomes.antt =====
-- parse_packet on any buffer: when it completes, waits or reads out of bounds, and what more bytes
-- change. The buffers are bytes, and shorter than 4 GiB.
use dirty_net.Prelude.{
  ℕ, suc, ◌+◌, ◌^◌, ◌≤◌, ◌<◌, ◌≡◌, ◌≢◌, ap, sym, subst, ◌∙◌, ◌↔◌, List, [], ◌∷◌, ◌++◌, arith, done,
  fault, length, length-append, All, All-left, append_assoc, append-nil,
}
use dirty_net.ByteOrder.{ByteOrder, big, IsByte, store32}
use dirty_net.Packet.{Packet, complete_result, incomplete_result, parse_packet}
use dirty_net.Packet.Shape.{Message, Fits, packet_of, wire, wire-All, length-wire_lt}
use dirty_net.Packet.Parse.{parse_sized, payload_overruns}
use dirty_net.Packet.RoundTrip.{parse-wire}
use dirty_net.Packet.Reading.{Reading, waits, refuses, overruns, reads, reading, parse_refused}

-- A buffer of bytes that a 32-bit length can count.
pub record IsBuffer (buffer : List ℕ) : Type 0 where
  pub bytes : All IsByte buffer
  pub short : length buffer < 2 ^ 32

-- A complete parse is sound: the packet is that of a message, the buffer begins with its wire form, and exactly the bytes of that form are consumed. Conversely each such buffer parses so.
pub parse_complete_iff :
    (o : ByteOrder) (buffer : List ℕ) (p : Packet) (n : ℕ)
    → IsBuffer buffer
    → (parse_packet o buffer ≡ done (complete_result p n)) ↔ (
        (m : Message) × (rest : List ℕ) × Fits m
        × (buffer ≡ wire m ++ rest)
        × (p ≡ packet_of m)
        × (n ≡ length (wire m)))
parse_complete_iff o buffer p n b = (sound (reading o buffer b.bytes b.short), full)
  where
    sound :
        Reading o buffer
        → parse_packet o buffer ≡ done (complete_result p n)
        → ((m : Message) × (rest : List ℕ) × Fits m
            × (buffer ≡ wire m ++ rest)
            × (p ≡ packet_of m)
            × (n ≡ length (wire m)))
    sound (waits r) e = cc
    sound (refuses _ _ _ _ _ _ _ r) e = cc
    sound (overruns _ _ _ _ _ r) e = cc
    sound (reads m rest f s r) e = (m, rest, f, s, cc, cc)

    full :
        ((m : Message) × (rest : List ℕ) × Fits m
          × (buffer ≡ wire m ++ rest)
          × (p ≡ packet_of m)
          × (n ≡ length (wire m)))
        → parse_packet o buffer ≡ done (complete_result p n)
    full (m, rest, f, s, e, k) = rw (s, e, k) (parse-wire o m rest f)

-- A header and a length come to 8 bytes.
length-sized :
    (n : ℕ) (rest : List ℕ) → length (store32 big 2 ++ (store32 big n ++ rest)) ≡ 8 + length rest
unfolding store32
length-sized n rest = omega arith

-- The message is read out of bounds exactly when a greeting announces a length from 2^32 - 8 on, whatever follows.
pub parse_fault_iff :
    (o : ByteOrder) (buffer : List ℕ)
    → IsBuffer buffer
    → (parse_packet o buffer ≡ fault) ↔ (
        (n : ℕ) × (rest : List ℕ) × (n < 2 ^ 32)
        × (2 ^ 32 ≤ 8 + n)
        × (buffer ≡ store32 big 2 ++ (store32 big n ++ rest)))
parse_fault_iff o buffer b = (faults (reading o buffer b.bytes b.short), back)
  where
    faults :
        Reading o buffer
        → parse_packet o buffer ≡ fault
        → ((n : ℕ) × (rest : List ℕ) × (n < 2 ^ 32)
            × (2 ^ 32 ≤ 8 + n)
            × (buffer ≡ store32 big 2 ++ (store32 big n ++ rest)))
    faults (waits r) e = cc
    faults (refuses _ _ _ _ _ _ _ r) e = cc
    faults (overruns n rest s word wraps r) e = (n, rest, word, wraps, s)
    faults (reads m rest f s r) e = cc

    back :
        ((n : ℕ) × (rest : List ℕ) × (n < 2 ^ 32)
          × (2 ^ 32 ≤ 8 + n)
          × (buffer ≡ store32 big 2 ++ (store32 big n ++ rest)))
        → parse_packet o buffer ≡ fault
    back (n, rest, word, wraps, s) =
        ap (parse_packet o) s
        ∙ parse_sized o n rest word
        ∙ payload_overruns (store32 big 2 ++ (store32 big n ++ rest)) n wraps word
            (omega (arith, length-sized n rest))
            (omega (arith, ap length s, length-sized n rest, b.short))

-- An answer other than `incomplete` is final: more bytes behind the buffer do not change it.
pub parse_final :
    (o : ByteOrder) (buffer more : List ℕ)
    → IsBuffer (buffer ++ more)
    → parse_packet o buffer ≢ done incomplete_result
    → parse_packet o (buffer ++ more) ≡ parse_packet o buffer
parse_final o buffer more b final =
    go (reading o buffer left (omega (arith, length-append buffer more, b.short)))
  where
    left : All IsByte buffer
    left = All-left IsByte buffer more b.bytes

    go : Reading o buffer → parse_packet o (buffer ++ more) ≡ parse_packet o buffer
    go (waits r) = absurd (final r)
    go (refuses a c d e rest s big_type r) =
        let h : All IsByte (a ∷ c ∷ d ∷ e ∷ rest) = subst (All IsByte) s left in
        ap (λ t. parse_packet o (t ++ more)) s
        ∙ parse_refused o a c d e (rest ++ more) (h.0, (h.1.0, (h.1.1.0, (h.1.1.1.0, tt)))) big_type
        ∙ sym r
    go (overruns n rest s word wraps r) =
        (parse_fault_iff o (buffer ++ more) b).1
          (n, rest ++ more, word, wraps, rw s (simp append_assoc))
        ∙ sym r
    go (reads m rest f s r) =
        ap (λ t. parse_packet o (t ++ more)) s
        ∙ ap (parse_packet o) (append_assoc (wire m) rest more)
        ∙ parse-wire o m (rest ++ more) f
        ∙ sym r

-- Every proper prefix of a message's wire form is waited for: not enough bytes is no error.
pub parse_prefix :
    (o : ByteOrder) (m : Message) (front : List ℕ) (x : ℕ) (back : List ℕ)
    → Fits m
    → wire m ≡ front ++ (x ∷ back)
    → parse_packet o front ≡ done incomplete_result
parse_prefix o m front x back f e = go (
    reading o front (All-left IsByte front (x ∷ back) whole.bytes)
      (omega (arith, longer, length-wire_lt m f)))
  where
    whole : IsBuffer (front ++ (x ∷ back))
    whole = subst IsBuffer e (record { bytes = wire-All m f; short = length-wire_lt m f })

    longer : length (wire m) ≡ length front + suc (length back)
    longer = ap length e ∙ length-append front (x ∷ back)

    all_read :
        parse_packet o (front ++ (x ∷ back))
        ≡ done (complete_result (packet_of m) (length (wire m)))
    all_read =
        subst (λ t. parse_packet o t ≡ done (complete_result (packet_of m) (length (wire m))))
          (append-nil (wire m) ∙ e) (parse-wire o m [] f)

    final :
        parse_packet o front ≢ done incomplete_result
        → parse_packet o front ≡ done (complete_result (packet_of m) (length (wire m)))
    final h = sym (parse_final o front (x ∷ back) whole h) ∙ all_read

    go : Reading o front → parse_packet o front ≡ done incomplete_result
    go (waits r) = r
    go (refuses _ _ _ _ _ _ _ r) = absurd (cc (r, final (λ w. cc (r, w))))
    go (overruns _ _ _ _ _ r) = absurd (cc (r, final (λ w. cc (r, w))))
    go (reads n rest g s r) =
        let same : length (wire n) ≡ length (wire m) = cc (r, final (λ w. cc (r, w))) in
        absurd (omega (arith, same, longer, ap length s, length-append (wire n) rest))
