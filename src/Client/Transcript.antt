-- ===== src/Client/Transcript.antt =====
-- The whole session of the client: what a run that exits with 0 has read and written.
use dirty_net.Prelude.{
  length-map, ℕ, zero, suc, ◌≤◌, ◌<◌, ◌≡◌, ◌⊎◌, inl, inr, refl, sym, ap, subst, ◌∙◌, true, List, [],
  ◌∷◌, ◌++◌, map, append_assoc, append-nil, arith, length, All,
}
use dirty_net.Prelude.Int.{ℤ, pos, negsuc}
use dirty_net.Packet.{Packet, packet_of_type, packet_of_msg, create_ping, create_msg}
use dirty_net.Packet.Shape.{Message, ping, pong, greeting, Fits, packet_of, wire}
use dirty_net.Packet.Outcomes.{IsBuffer}
use dirty_net.Stream.Split.{wires}
use dirty_net.Session.{
  Session, Host, Event, writes, closes, M, ◌>>=◌, ◌>>◌, close, return_code, collect_all, is_ok,
}
use dirty_net.Session.Ensures.{
  Ending, Ensures, gives, quits, and_then-Ensures, require-Ensures, Ensures-weaken,
}
use dirty_net.Stream.Overrun.{Overrun}
use dirty_net.Session.Receive.{stream, receive-AfterCall}
use dirty_net.Session.Collect.{Collected, collect_all-Collected}
use dirty_net.Session.Progress.{Progress, Overrun-earlier, Ended, Meets, taken-Progress, after_send}
use dirty_net.Client.{
  is_pong, all_pongs, packet_at, hello_from_client, quit, built_msg, await_packets, play,
}

-- What a successful run has read and the calls it has made.
pub record Played (fd : ℤ) (s t : Session) : Type 0 where
  pub replies : List Message
  pub small : List Message
  pub large : List Message
  pub some_reply : 1 ≤ length replies
  pub only_pongs : All (λ m. m ≡ pong) replies
  pub three_small : 3 ≤ length small
  pub three_large : 3 ≤ length large
  pub stream_is : stream s ≡ wires ((replies ++ small) ++ large) ++ stream t
  pub events_are :
      t.events
      ≡ s.events
        ++ (writes fd (wire ping)
            ∷ writes fd (wire (greeting hello_from_client))
            ∷ writes fd (wire (greeting built_msg))
            ∷ writes fd (wire (greeting quit))
            ∷ closes fd
            ∷ [])

abbrev pub Return : ℤ → Session → ℤ → Session → Type 0
Return fd s c t = (c ≡ negsuc 0) ⊎ ((c ≡ pos 0) × Played fd s t)

abbrev pub Outcome : ℤ → Session → Ending
Outcome fd s = record { returned = Return fd s; wrong = Overrun (stream s) }

pub Fits-built_msg : Fits (greeting built_msg)
unfolding built_msg
Fits-built_msg = omega arith

pub Fits-hello_from_client : Fits (greeting hello_from_client)
Fits-hello_from_client = omega arith

pub Fits-quit : Fits (greeting quit)
Fits-quit = omega arith

is_pong-eq : (m : Message) → is_pong (packet_of m).hdr ≡ true → m ≡ pong
unfolding packet_of packet_of_type packet_of_msg
is_pong-eq ping e = cc
is_pong-eq pong e = refl
is_pong-eq (greeting b) e = cc

module _ (h : Host) (fd : ℤ) (s : Session) where
  abbrev Goal : Ending
  Goal = Outcome fd s

  fails : (t : Session) → Goal.returned (negsuc 0) t
  fails t = inl refl

  all_pongs-Ensures :
      (ns : List Message) (t : Session)
      → Ensures (λ _ u. All (λ m. m ≡ pong) ns × (u ≡ t)) Goal (all_pongs (map packet_of ns) t)
  unfolding all_pongs
  all_pongs-Ensures [] t = gives tt t (tt, refl)
  all_pongs-Ensures (n ∷ ns) t =
      and_then-Ensures _ (require-Ensures Goal (is_pong (packet_of n).hdr) t (fails t)) (λ _ u e.
        Ensures-weaken (all_pongs-Ensures ns u) (λ _ v f. ((is_pong-eq n e.0, f.0), f.1 ∙ e.1)))

  after_pongs :
      (ns ms : List Message) (es : List Event) (k : M (Unit {0}))
      → (All (λ m. m ≡ pong) ns → Meets Goal s ms es k)
      → Meets Goal s ms es (all_pongs (map packet_of ns) >> k)
  after_pongs ns ms es k g t p =
      and_then-Ensures _ (all_pongs-Ensures ns t)
        (λ _ u e. g e.0 u (subst (Progress s ms es) (sym e.1) p))

  after_packet_at :
      (all : List Packet) (i : ℕ) (ms : List Message) (es : List Event) (k : Packet → M (Unit {0}))
      → i < length all
      → ((q : Packet) → Meets Goal s ms es (k q))
      → Meets Goal s ms es (packet_at all i >>= k)
  unfolding packet_at
  after_packet_at [] i ms es k l g t p = absurd (omega arith)
  after_packet_at (q ∷ qs) zero ms es k l g t p = g q t p
  after_packet_at (q ∷ qs) (suc i) ms es k l g t p =
      after_packet_at qs i ms es k (omega arith) g t p

  after_three :
      (all : List Packet) (ms : List Message) (es : List Event) (k : M (Unit {0}))
      → 3 ≤ length all
      → Meets Goal s ms es k
      → Meets Goal s ms es
          (packet_at all 0 >>= λ _. packet_at all 1 >>= λ _. packet_at all 2 >>= λ _. k)
  after_three all ms es k l g = after_packet_at all 0 ms es _ (omega arith) (λ _.
      after_packet_at all 1 ms es _ (omega arith)
        (λ _. after_packet_at all 2 ms es _ (omega arith) (λ _. g)))

  -- The close and the return, behind the last greeting.
  finish :
      (replies small large : List Message)
      → 1 ≤ length replies
      → All (λ m. m ≡ pong) replies
      → 3 ≤ length small
      → 3 ≤ length large
      → Meets Goal s
          ((replies ++ small) ++ large)
          (writes fd (wire ping)
            ∷ writes fd (wire (greeting hello_from_client))
            ∷ writes fd (wire (greeting built_msg))
            ∷ writes fd (wire (greeting quit))
            ∷ [])
          (close fd >> return_code (pos 0))
  unfolding close
  finish replies small large one pongs three more t p = quits (pos 0) _ (
      inr (
        refl,
        record {
          replies = replies;
          small = small;
          large = large;
          some_reply = one;
          only_pongs = pongs;
          three_small = three;
          three_large = more;
          stream_is = p.stream_is;
          events_are =
              ap (λ x. x ++ (closes fd ∷ [])) p.events_are
              ∙ append_assoc s.events _ (closes fd ∷ []);
        },
      ))

  await-Collected :
      (want : ℕ) (t : Session)
      → 0 < want
      → IsBuffer (stream t)
      → (Overrun (stream t) → Overrun (stream s))
      → Ensures (Collected t want) Goal (await_packets h want t)
  unfolding await_packets
  await-Collected want t w b wrong =
      and_then-Ensures _ (receive-AfterCall h Goal t b wrong) (λ r u q.
        and_then-Ensures _ (require-Ensures Goal (is_ok r.status) u (fails u)) (λ _ v e.
          subst (λ x. Ensures (Collected t want) Goal (collect_all h want r.packets x)) (sym e.1)
            (collect_all-Collected h Goal fails t u r want w wrong q)))

  after_await :
      (want : ℕ) (ms : List Message) (es : List Event) (k : List Packet → M (Unit {0}))
      → 0 < want
      → ((ns : List Message) → want ≤ length ns → Meets Goal s (ms ++ ns) es (k (map packet_of ns)))
      → Meets Goal s ms es (await_packets h want >>= k)
  after_await want ms es k w g t p =
      and_then-Ensures _ (await-Collected want t w p.buffer (Overrun-earlier s t ms es p))
        (λ all x c.
          subst (λ y. Ensures Ended Goal (k y x)) (sym c.packets_are)
            (g c.messages
              (omega (arith, ap length c.packets_are, length-map packet_of c.messages, c.enough)) x
              (taken-Progress s t x ms c.messages es p c.stream_is c.buffer c.same_events)))

  -- The phases in the order of main.
  play-Meets : Meets Goal s [] [] (play h fd)
  unfolding play create_ping create_msg packet_of
  play-Meets = after_send h Goal fails s fd _ _ ping _ tt (
      after_await 1 _ _ _ (omega arith) (λ replies one. after_pongs replies _ _ _ (λ pongs.
        after_send h Goal fails s fd _ _ (greeting hello_from_client) _ Fits-hello_from_client (
          after_await 3 _ _ _ (omega arith) (λ small three.
            after_three (map packet_of small) _ _ _ (omega (arith, length-map packet_of small)) (
              after_send h Goal fails s fd _ _ (greeting built_msg) _ Fits-built_msg (
                after_await 3 _ _ _ (omega arith) (λ large more.
                  after_three (map packet_of large) _ _ _
                    (omega (arith, length-map packet_of large))
                    (after_send h Goal fails s fd _ _ (greeting quit) _ Fits-quit
                      (finish replies small large one pongs three more))))))))))

-- From a connected socket to main's end.
pub play-Outcome :
    (h : Host) (fd : ℤ) (s : Session)
    → IsBuffer (stream s)
    → Ensures Ended (Outcome fd s) (play h fd s)
play-Outcome h fd s b =
    play-Meets h fd s s
      (record { stream_is = refl; buffer = b; events_are = sym (append-nil s.events) })
