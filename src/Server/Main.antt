-- ===== src/Server/Main.antt =====
-- All returns of the server's main.
use dirty_net.Prelude.{◌≡◌, ◌⊎◌, inl, inr, refl, Bool-cases, true, false}
use dirty_net.Prelude.Int.{ℤ, is_zero, is_negative}
use dirty_net.Packet.Outcomes.{IsBuffer}
use dirty_net.Session.{Session, Host, Exit}
use dirty_net.Session.Ensures.{Ending, Ensures, gives, quits, goes_wrong}
use dirty_net.Stream.Overrun.{Overrun}
use dirty_net.Session.Receive.{stream}
use dirty_net.Server.{Startup, main}
use dirty_net.Session.Progress.{Ended}
use dirty_net.Server.Transcript.{Return, Outcome, serve-Outcome}

-- The four calls before the session, of which the first that fails gives the exit code.
pub data Refused (st : Startup) : ℤ → Type 0 where
  no_socket : is_negative st.socket_result ≡ true → Refused st st.socket_result
  no_bind :
      is_negative st.socket_result ≡ false
      → is_negative st.bind_result ≡ true
      → Refused st st.bind_result
  no_listen :
      is_negative st.socket_result ≡ false
      → is_negative st.bind_result ≡ false
      → is_zero st.listen_result ≡ false
      → Refused st st.listen_result
  no_accept :
      is_negative st.socket_result ≡ false
      → is_negative st.bind_result ≡ false
      → is_zero st.listen_result ≡ true
      → is_negative st.accept_result ≡ true
      → Refused st st.accept_result

pub record Accepted (st : Startup) : Type 0 where
  pub socket_made : is_negative st.socket_result ≡ false
  pub bound : is_negative st.bind_result ≡ false
  pub listens : is_zero st.listen_result ≡ true
  pub accepted : is_negative st.accept_result ≡ false

abbrev pub ServerReturn : Startup → Session → ℤ → Session → Type 0
ServerReturn st s c t =
    (Refused st c × (t ≡ s)) ⊎ (Accepted st × Return st.accept_result st.socket_result s c t)

abbrev pub ServerOutcome : Startup → Session → Ending
ServerOutcome st s = record {
  returned = ServerReturn st s;
  wrong = Accepted st × Overrun (stream s);
}

widen :
    (st : Startup) (s : Session) (e : Exit (Unit {0}))
    → Accepted st
    → Ensures Ended (Outcome st.accept_result st.socket_result s) e
    → Ensures Ended (ServerOutcome st s) e
widen st s e a (gives x t q) = absurd q
widen st s e a (quits c t r) = quits c t (inr (a, r))
widen st s e a (goes_wrong w) = goes_wrong (a, w)

-- The server's main ends on every host, whatever its peer sends and however the bytes are cut, if they
-- are shorter than 4 GiB: with the result of the first of the calls before the session that fails,
-- without a read or a write; with -1; with 0, in which case all calls before the session succeeded, the
-- bytes received start with a ping, two greetings and the greeting QUIT, and main has written a
-- pong, then a pong, a ping and the greeting Hello World!, then the three large greetings in one call,
-- and has closed the connection and the listening socket; or in undefined behaviour, if those calls
-- succeeded and the bytes received hold, behind whole messages, the header of a greeting with a
-- length of 2^32 - 8 or more. No loop of main goes on for ever.
pub main-ServerOutcome :
    (h : Host) (st : Startup) (s : Session)
    → IsBuffer (stream s)
    → Ensures Ended (ServerOutcome st s) (main h st s)
unfolding main
main-ServerOutcome h st s b = elim (Bool-cases (is_negative st.socket_result)) [
  | inl e ↦ rw e (quits _ s (inl (no_socket e, refl)))
  | inr e ↦ elim (Bool-cases (is_negative st.bind_result)) [
    | inl f ↦ rw (e, f) (quits _ s (inl (no_bind e f, refl)))
    | inr f ↦ elim (Bool-cases (is_zero st.listen_result)) [
      | inr g ↦ rw (e, f, g) (quits _ s (inl (no_listen e f g, refl)))
      | inl g ↦ elim (Bool-cases (is_negative st.accept_result)) [
        | inl k ↦ rw (e, f, g, k) (quits _ s (inl (no_accept e f g k, refl)))
        | inr k ↦
            rw (e, f, g, k)
              (widen st s _ (record { socket_made = e; bound = f; listens = g; accepted = k })
                (serve-Outcome h st.accept_result st.socket_result s b))
      ]
    ]
  ]
]
