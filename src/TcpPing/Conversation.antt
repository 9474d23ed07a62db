-- ===== src/TcpPing/Conversation.antt =====
-- The server and the client of tcp-ping against one another.
use dirty_net.Prelude.{
  ℕ, ◌<◌, ◌≡◌, refl, ap, ◌∙◌, append_assoc, List, [], ◌∷◌, ◌++◌, true, false, arith, length,
}
use dirty_net.Prelude.Int.{ℤ, pos, is_negative, is_zero}
use dirty_net.ByteOrder.{ByteOrder, htons}
use dirty_net.Text.{c_str}
use dirty_net.Stream.{got}
use dirty_net.Sandbox.{Call, opens, connects, receives, writes, closes, prints, System, next, exits}
use dirty_net.TcpPing.{
  response_to, quit, hello_from_client, accept_client, ended, server_main, exchange, client_main,
}
use dirty_net.TcpPing.Laws.{
  round_calls, transcript, Feeds, IsQuit, receive_text_done, server_main-ended,
}

-- The blocks that a run writes.
written_by : Call → List (List ℕ)
written_by (writes fd bytes) = bytes ∷ []
written_by _ = []

unfoldable pub written : List Call → List (List ℕ)
unfolding written_by
written [] = []
written (c ∷ cs) = written_by c ++ written cs

-- The texts that it prints.
printed_by : Call → List (List ℕ)
printed_by (prints text) = text ∷ []
printed_by _ = []

unfoldable pub printed : List Call → List (List ℕ)
unfolding printed_by
printed [] = []
printed (c ∷ cs) = printed_by c ++ printed cs

-- The client's calls up to its connection, and those of an exchange.
abbrev pub connecting : ByteOrder → ℤ → ℕ → List Call
connecting o fd loopback =
    opens ∷ connects fd (record { sin_port = htons o 8090; sin_addr = loopback }) ∷ []

abbrev pub exchanged : ℤ → List ℕ → List ℕ → List Call
exchanged fd msg answer = writes fd msg ∷ receives fd 1023 ∷ prints (c_str answer) ∷ []

-- The client connects, and reads an answer to each of its messages.
pub record Answered (o : ByteOrder) (sys : System) (loopback : ℕ)
    (hello_answer quit_answer : List ℕ) : Type 0 where
  pub socket : is_negative (sys.result [] opens) ≡ false
  pub connection :
      is_zero (
        sys.result (opens ∷ []) (
          connects (sys.result [] opens) (record { sin_port = htons o 8090; sin_addr = loopback })))
      ≡ true
  pub first :
      sys.input (
        connecting o (sys.result [] opens) loopback
        ++ (writes (sys.result [] opens) hello_from_client ∷ []))
      ≡ got hello_answer
  pub second :
      sys.input (
        (connecting o (sys.result [] opens) loopback
          ++ exchanged (sys.result [] opens) hello_from_client hello_answer)
        ++ (writes (sys.result [] opens) quit ∷ []))
      ≡ got quit_answer

exchange_done :
    (sys : System) (fd : ℤ) (msg answer : List ℕ) (t : List Call)
    → sys.input (t ++ (writes fd msg ∷ [])) ≡ got answer
    → length answer < 1024
    → exchange sys fd msg t ≡ next tt (t ++ exchanged fd msg answer)
unfolding exchange
exchange_done sys fd msg answer t e l =
    rw (receive_text_done sys fd (t ++ (writes fd msg ∷ [])) answer e l)
      (ap (next tt) (simp append_assoc))

client_main-Answered :
    (o : ByteOrder) (sys : System) (loopback : ℕ) (hello_answer quit_answer : List ℕ)
    → Answered o sys loopback hello_answer quit_answer
    → length hello_answer < 1024
    → length quit_answer < 1024
    → client_main o sys loopback []
      ≡ exits (pos 0) (
          (connecting o (sys.result [] opens) loopback
            ++ (exchanged (sys.result [] opens) hello_from_client hello_answer
                ++ exchanged (sys.result [] opens) quit quit_answer))
          ++ (closes (sys.result [] opens) ∷ []))
unfolding client_main
client_main-Answered o sys loopback a1 a2 w l1 l2 =
    let fd : ℤ = sys.result [] opens in
    rw (w.socket, w.connection)
      (rw (exchange_done sys fd hello_from_client a1 (connecting o fd loopback) w.first l1) (
        rw
          (exchange_done sys fd quit a2
            (connecting o fd loopback ++ exchanged fd hello_from_client a1) w.second l2)
          refl))

first_byte : List ℕ → ℕ
first_byte [] = 0
first_byte (b ∷ bs) = b

pub hello_IsQuit : ¬ IsQuit hello_from_client
unfolding c_str first_byte
hello_IsQuit e = let h : 72 ≡ 81 = ap first_byte e in omega (arith, h)

-- If the server reads the client's messages whole, and the client the server's answers whole, and the client can
-- connect, both programs end with 0 behind two messages and their answers: the client writes "Hello from client" and
-- QUIT, the server answers each with the message in brackets, and the client prints both answers.
pub conversation :
    (o : ByteOrder) (cl sv : System) (loopback n : ℕ) (fd : ℤ) (t : List Call)
    → accept_client o sv [] ≡ next fd t
    → Feeds sv fd t (hello_from_client ∷ quit ∷ [])
    → Answered o cl loopback (response_to hello_from_client) (response_to quit)
    → 1 < n
    → (run served : List Call) × (client_main o cl loopback [] ≡ exits (pos 0) run)
      × (written run ≡ hello_from_client ∷ quit ∷ [])
      × (server_main o sv n ≡ ended (pos 0) ((t ++ served) ++ (closes (sv.result [] opens) ∷ [])))
      × (written served ≡ response_to hello_from_client ∷ response_to quit ∷ [])
      × (printed run ≡ written served)
unfolding written printed c_str transcript
conversation o cl sv loopback n fd t a f w l = (
  _,
  round_calls fd hello_from_client ++ round_calls fd quit,
  client_main-Answered o cl loopback (response_to hello_from_client) (response_to quit) w
      (omega arith) (omega arith),
  refl,
  server_main-ended o sv n fd t (hello_from_client ∷ []) quit a (f.0, f.1, tt) (hello_IsQuit, tt)
        f.2 refl (omega (arith, l))
      ∙ ap (ended (pos 0)) (simp append_assoc),
  refl,
  refl,
)
