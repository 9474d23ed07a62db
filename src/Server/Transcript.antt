-- ===== src/Server/Transcript.antt =====
-- The whole session of the server: what a successful run has read and written.
use dirty_net.Prelude.{
  ℕ, ◌≡◌, ◌⊎◌, inl, inr, refl, sym, ap, ◌∙◌, not, List, [], ◌∷◌, ◌++◌, append_assoc, append-nil,
  done, arith,
}
use dirty_net.Prelude.Int.{ℤ, pos, negsuc, is_zero}
use dirty_net.Memory.{same_bytes}
use dirty_net.Memory.Laws.{same_bytes-eq}
use dirty_net.Packet.{create_ping, create_pong, create_msg}
use dirty_net.Packet.Shape.{Message, ping, pong, greeting, Fits, packet_of, wire, encode-wire}
use dirty_net.Packet.Outcomes.{IsBuffer}
use dirty_net.Stream.Split.{wires}
use dirty_net.Session.{
  Session, Host, Event, writes, closes, M, ◌>>=◌, ◌>>◌, lift, write, close, return_code,
}
use dirty_net.Session.Ensures.{
  Ending, Ensures, quits, and_then-Ensures, require-Ensures, Ensures-weaken,
}
use dirty_net.Stream.Overrun.{Overrun}
use dirty_net.Session.Receive.{stream}
use dirty_net.Server.{
  expect_ping, expect_greeting, send_some, send_full, full_packet_encoded, msg_100, msg_50, msg_150,
  hello_world, quit, serve,
}
use dirty_net.Session.Progress.{
  Progress, Overrun-earlier, taken-Progress, after_write, Ended, Meets, after_send, after_write_of,
  after_require,
}
use dirty_net.Server.Phases.{Took, expect_ping-Took, expect_greeting-Took, send_some-writes}

Took-Progress :
    (s t u : Session) (ms : List Message) (es : List Event) (m : Message)
    → Progress s ms es t
    → Took t m u
    → Progress s (ms ++ (m ∷ [])) es u
Took-Progress s t u ms es m p k =
    taken-Progress s t u ms (m ∷ []) es p
      (k.stream_is ∙ ap (λ x. x ++ stream u) (sym (append-nil (wire m)))) k.buffer k.same_events

abbrev pub bulk : List ℕ
bulk = wire (greeting msg_100) ++ (wire (greeting msg_50) ++ wire (greeting msg_150))

pub Fits-msg_100 : Fits (greeting msg_100)
unfolding msg_100
Fits-msg_100 = omega arith

pub Fits-msg_50 : Fits (greeting msg_50)
unfolding msg_50
Fits-msg_50 = omega arith

pub Fits-msg_150 : Fits (greeting msg_150)
unfolding msg_150
Fits-msg_150 = omega arith

-- The bytes of the three large messages, one behind the other.
pub full_packet_encoded-bulk : (h : Host) → full_packet_encoded h ≡ done bulk
unfolding full_packet_encoded create_msg packet_of
full_packet_encoded-bulk h = rw (encode-wire h.byte_order (greeting msg_100) Fits-msg_100) (
    rw (encode-wire h.byte_order (greeting msg_50) Fits-msg_50)
      (rw (encode-wire h.byte_order (greeting msg_150) Fits-msg_150) refl))

-- What a successful run has read and the calls it has made.
pub record Served (connection listener : ℤ) (s t : Session) : Type 0 where
  pub hello : List ℕ
  pub large : List ℕ
  pub stream_is :
      stream s ≡ wires (ping ∷ greeting hello ∷ greeting large ∷ greeting quit ∷ []) ++ stream t
  pub events_are :
      t.events
      ≡ s.events
        ++ (writes connection (wire pong)
            ∷ writes connection (wire pong)
            ∷ writes connection (wire ping)
            ∷ writes connection (wire (greeting hello_world))
            ∷ writes connection bulk
            ∷ closes connection
            ∷ closes listener
            ∷ [])

-- How main's return is to be understood.
abbrev pub Return : ℤ → ℤ → Session → ℤ → Session → Type 0
Return connection listener s c t = (c ≡ negsuc 0) ⊎ ((c ≡ pos 0) × Served connection listener s t)

abbrev pub Outcome : ℤ → ℤ → Session → Ending
Outcome connection listener s = record {
  returned = Return connection listener s;
  wrong = Overrun (stream s);
}

send_full-writes :
    (h : Host) (R : Ending) (fails : (t : Session) → R.returned (negsuc 0) t) (fd : ℤ) (s : Session)
    → Ensures (λ _ t. t ≡ after_write fd bulk s) R (send_full h fd s)
unfolding send_full lift write
send_full-writes h R fails fd s = rw (full_packet_encoded-bulk h) (
    Ensures-weaken
      (require-Ensures R (not (is_zero (h.write_result s.events bulk))) (after_write fd bulk s)
        (fails _))
      (λ _ w g. g.1))

-- The two closes and the return, behind the last greeting.
finish :
    (connection listener : ℤ) (hello large msg : List ℕ) (s t : Session)
    → Progress s
        (ping ∷ greeting hello ∷ greeting large ∷ greeting msg ∷ [])
        (writes connection (wire pong)
          ∷ writes connection (wire pong)
          ∷ writes connection (wire ping)
          ∷ writes connection (wire (greeting hello_world))
          ∷ writes connection bulk
          ∷ [])
        t
    → msg ≡ quit
    → Ensures Ended
        (Outcome connection listener s)
        ((close connection >> (close listener >> return_code (pos 0))) t)
unfolding close
finish connection listener hello large msg s t p e = quits (pos 0) _ (
    inr (
      refl,
      record {
        hello = hello;
        large = large;
        stream_is =
            p.stream_is
            ∙ ap (λ m. wires (ping ∷ greeting hello ∷ greeting large ∷ greeting m ∷ []) ++ stream t)
                e;
        events_are =
            ap (λ x. (x ++ (closes connection ∷ [])) ++ (closes listener ∷ [])) p.events_are
            ∙ ap (λ x. x ++ (closes listener ∷ []))
                (append_assoc s.events _ (closes connection ∷ []))
            ∙ append_assoc s.events _ (closes listener ∷ []);
      },
    ))

pub Fits-hello_world : Fits (greeting hello_world)
Fits-hello_world = omega arith

module _ (h : Host) (connection listener : ℤ) (s : Session) where
  abbrev Goal : Ending
  Goal = Outcome connection listener s

  fails : (t : Session) → Return connection listener s (negsuc 0) t
  fails t = inl refl

  after_send_some :
      (ms : List Message) (es : List Event) (m : Message) (k : M (Unit {0}))
      → Fits m
      → Meets Goal s ms (es ++ (writes connection (wire m) ∷ [])) k
      → Meets Goal s ms es (send_some h connection (packet_of m) >> k)
  after_send_some ms es m k f g =
      after_write_of h Goal fails s ms es connection (wire m) (send_some h connection (packet_of m))
        (λ _. k) (λ t. send_some-writes h Goal fails connection m t f) (λ _. g)

  after_send_full :
      (ms : List Message) (es : List Event) (k : M (Unit {0}))
      → Meets Goal s ms (es ++ (writes connection bulk ∷ [])) k
      → Meets Goal s ms es (send_full h connection >> k)
  after_send_full ms es k g =
      after_write_of h Goal fails s ms es connection bulk (send_full h connection) (λ _. k)
        (send_full-writes h Goal fails connection) (λ _. g)

  after_ping :
      (ms : List Message) (es : List Event) (k : M (Unit {0}))
      → Meets Goal s (ms ++ (ping ∷ [])) es k
      → Meets Goal s ms es (expect_ping h >> k)
  after_ping ms es k g t p =
      and_then-Ensures _ (expect_ping-Took h _ fails t p.buffer (Overrun-earlier s t ms es p))
        (λ _ u e. g u (Took-Progress s t u ms es ping p e))

  after_greeting :
      (ms : List Message) (es : List Event) (k : List ℕ → M (Unit {0}))
      → ((msg : List ℕ) → Meets Goal s (ms ++ (greeting msg ∷ [])) es (k msg))
      → Meets Goal s ms es (expect_greeting h >>= k)
  after_greeting ms es k g t p =
      and_then-Ensures _ (expect_greeting-Took h _ fails t p.buffer (Overrun-earlier s t ms es p))
        (λ msg u e. g msg u (Took-Progress s t u ms es (greeting msg) p e))

  -- The phases in the order of main.
  serve-Meets : Meets Goal s [] [] (serve h connection listener)
  unfolding serve create_ping create_pong create_msg packet_of
  serve-Meets = after_ping [] [] _ (
      after_send h Goal fails s connection _ _ pong _ tt (
        after_greeting _ _ _ (λ hello. after_send_some _ _ pong _ tt (
          after_send_some _ _ ping _ tt (
            after_send_some _ _ (greeting hello_world) _ Fits-hello_world (
              after_greeting _ _ _ (λ large. after_send_full _ _ _ (
                after_greeting _ _ _ (λ msg.
                  after_require h Goal fails s _ _ (same_bytes msg quit) _ (λ e t p.
                    finish connection listener hello large msg s t p
                      (same_bytes-eq msg quit e)))))))))))

-- From an accepted connection to main's end.
pub serve-Outcome :
    (h : Host) (connection listener : ℤ) (s : Session)
    → IsBuffer (stream s)
    → Ensures Ended (Outcome connection listener s) (serve h connection listener s)
serve-Outcome h connection listener s b =
    serve-Meets h connection listener s s
      (record { stream_is = refl; buffer = b; events_are = sym (append-nil s.events) })
