-- ===== src/Client/Main.antt =====
-- All returns of the client's main.
use dirty_net.Prelude.{◌≡◌, ◌⊎◌, inl, inr, refl, Bool-cases, true, false}
use dirty_net.Prelude.Int.{ℤ, is_zero, is_negative}
use dirty_net.Packet.Outcomes.{IsBuffer}
use dirty_net.Session.{Session, Host, Exit}
use dirty_net.Session.Ensures.{Ending, Ensures, gives, quits, goes_wrong}
use dirty_net.Stream.Overrun.{Overrun}
use dirty_net.Session.Receive.{stream}
use dirty_net.Session.Progress.{Ended}
use dirty_net.Client.{Startup, main}
use dirty_net.Client.Transcript.{Return, Outcome, play-Outcome}

-- The two calls before the session, of which the first that fails gives the exit code.
pub data Refused (st : Startup) : ℤ → Type 0 where
  no_socket : is_negative st.socket_result ≡ true → Refused st st.socket_result
  no_connect :
      is_negative st.socket_result ≡ false
      → is_zero st.connect_result ≡ false
      → Refused st st.connect_result

pub record Connected (st : Startup) : Type 0 where
  pub socket_made : is_negative st.socket_result ≡ false
  pub connected : is_zero st.connect_result ≡ true

abbrev pub ClientReturn : Startup → Session → ℤ → Session → Type 0
ClientReturn st s c t = (Refused st c × (t ≡ s)) ⊎ (Connected st × Return st.socket_result s c t)

abbrev pub ClientOutcome : Startup → Session → Ending
ClientOutcome st s = record {
  returned = ClientReturn st s;
  wrong = Connected st × Overrun (stream s);
}

widen :
    (st : Startup) (s : Session) (e : Exit (Unit {0}))
    → Connected st
    → Ensures Ended (Outcome st.socket_result s) e
    → Ensures Ended (ClientOutcome st s) e
widen st s e a (gives x t q) = absurd q
widen st s e a (quits c t r) = quits c t (inr (a, r))
widen st s e a (goes_wrong w) = goes_wrong (a, w)

-- The client's main ends on every host, whatever the server sends and however the bytes are cut, if
-- they are shorter than 4 GiB: with the result of socket or of connect if that fails, without a read
-- or a write; with -1; with 0, in which case both calls succeeded, the bytes received start with one
-- pong or more, then three packets or more, and then again three or more, and main has written a ping
-- and the greetings Hello from client!, the 528 characters and QUIT, each in one call, and has
-- closed the socket; or in undefined behaviour, if both calls succeeded and the bytes received hold,
-- behind whole messages, the header of a greeting with a length of 2^32 - 8 or more. No loop of main
-- goes on for ever.
pub main-ClientOutcome :
    (h : Host) (st : Startup) (s : Session)
    → IsBuffer (stream s)
    → Ensures Ended (ClientOutcome st s) (main h st s)
unfolding main
main-ClientOutcome h st s b = elim (Bool-cases (is_negative st.socket_result)) [
  | inl e ↦ rw e (quits _ s (inl (no_socket e, refl)))
  | inr e ↦ elim (Bool-cases (is_zero st.connect_result)) [
    | inr g ↦ rw (e, g) (quits _ s (inl (no_connect e g, refl)))
    | inl g ↦
        rw (e, g)
          (widen st s _ (record { socket_made = e; connected = g })
            (play-Outcome h st.socket_result s b))
  ]
]
