-- ===== src/Stream/Overrun.antt =====
-- The bytes at which the parser goes wrong, somewhere in a stream.
use dirty_net.Prelude.{
  ℕ, ◌+◌, ◌≤◌, ◌<◌, ◌^◌, ◌≡◌, sym, ap, subst, ◌∙◌, List, [], ◌++◌, append_assoc, fault, arith,
  length, length-append, All, All-left, All-right,
}
use dirty_net.ByteOrder.{ByteOrder, big, IsByte, store32}
use dirty_net.Packet.{parse_packet}
use dirty_net.Packet.Shape.{Message}
use dirty_net.Packet.Outcomes.{IsBuffer, parse_fault_iff}
use dirty_net.Stream.Split.{wires, wires-append}

pub IsBuffer-back : (xs ys zs : List ℕ) → zs ≡ xs ++ ys → IsBuffer zs → IsBuffer ys
IsBuffer-back xs ys zs e b = record {
  bytes = All-right IsByte xs ys (subst (All IsByte) e b.bytes);
  short = omega (arith, ap length e, length-append xs ys, b.short);
}

pub IsBuffer-front : (xs ys : List ℕ) → IsBuffer (xs ++ ys) → IsBuffer xs
IsBuffer-front xs ys b = record {
  bytes = All-left IsByte xs ys b.bytes;
  short = omega (arith, length-append xs ys, b.short);
}

-- Behind whole messages, the header of a greeting whose length brings the parser's total to 2^32.
pub record Overrun (bytes : List ℕ) : Type 0 where
  pub before : List Message
  pub payload_len : ℕ
  pub after : List ℕ
  pub word : payload_len < 2 ^ 32
  pub wraps : 2 ^ 32 ≤ 8 + payload_len
  pub bytes_are : bytes ≡ wires before ++ (store32 big 2 ++ (store32 big payload_len ++ after))

pub Overrun-behind :
    (bytes rest : List ℕ) (ms : List Message)
    → bytes ≡ wires ms ++ rest
    → Overrun rest
    → Overrun bytes
Overrun-behind bytes rest ms e v = record {
  before = ms ++ v.before;
  payload_len = v.payload_len;
  after = v.after;
  word = v.word;
  wraps = v.wraps;
  bytes_are =
      e
      ∙ ap (λ t. wires ms ++ t) v.bytes_are
      ∙ sym (append_assoc (wires ms) (wires v.before) _)
      ∙ ap (λ t. t ++ (store32 big 2 ++ (store32 big v.payload_len ++ v.after)))
          (sym (wires-append ms v.before));
}

pub fault-Overrun :
    (o : ByteOrder) (bytes more : List ℕ)
    → IsBuffer bytes
    → parse_packet o bytes ≡ fault
    → Overrun (bytes ++ more)
fault-Overrun o bytes more b e =
    let (n, rest, word, wraps, split) = (parse_fault_iff o bytes b).0 e in
    record {
      before = [];
      payload_len = n;
      after = rest ++ more;
      word = word;
      wraps = wraps;
      bytes_are = rw split (simp append_assoc);
    }
