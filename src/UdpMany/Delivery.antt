-- ===== src/UdpMany/Delivery.antt =====
-- The host and a client together: what the client prints of a datagram that the host has sent to its port.
pub mod Multicast
mod Tests
use dirty_net.Prelude.{
  ℕ, ◌<◌, ◌^◌, ◌≡◌, refl, sym, ap, subst, ◌∙◌, List, [], ◌∷◌, ◌++◌, some, false, arith, length,
  ◌==◌, if◌then◌else◌, All, All-append, only_one, ◌≢◌, length-append,
}
use native.Mathlib.Decide.{dec_lt}
use dirty_net.Prelude.Int.{ℤ, pos, is_negative}
use dirty_net.ByteOrder.{ByteOrder, little, big, htons}
use dirty_net.Text.{to_string, c_str}
use dirty_net.Text.Laws.{c_str_text, to_string-All, length-to_string, IsText, IsDigit}
use dirty_net.Stream.{got}
use dirty_net.Sandbox.{
  Address, Call, opens, binds, receives, prints, sends, closes, System, Step, next, exits,
  undefined,
}
use dirty_net.Sandbox.Laws.{terminated-got}
use dirty_net.Sandbox.Receive.{Succeed}
use dirty_net.UdpMany.ParsePort.{parse_port, parse_port-to_string}
use dirty_net.UdpMany.Clients.{
  any_address, receive_and_print, unicast_client, unicast_main, with_port,
}
use dirty_net.UdpMany.Clients.Laws.{unicast_calls}
use dirty_net.UdpMany.Host.{hello_to_port}
use dirty_net.UdpMany.Host
use dirty_net.UdpMany.Host.Greets.{Willing, greeting_to, greeting_run, main-greeting_run}

-- The calls of a run.
abbrev pub calls_of : Step (Unit {0}) → List Call
calls_of (next a cs) = cs
calls_of (exits c cs) = cs
calls_of undefined = []

-- The datagrams that these calls send to a port.
abbrev pub datagrams_to : ℕ → List Call → List (List ℕ)
datagrams_to port [] = []
datagrams_to port (sends fd bytes to ∷ cs) =
    let rest = datagrams_to port cs in if to.sin_port == port then bytes ∷ rest else rest
datagrams_to port (_ ∷ cs) = datagrams_to port cs

-- The host greets each of its four ports once.
one_greeting :
    (o : ByteOrder) (host : System) (group port : ℕ)
    → 8999 < port
    → port < 9004
    → datagrams_to (htons o port) (greeting_run o host group)
      ≡ (hello_to_port ++ to_string port) ∷ []
unfolding htons
one_greeting o host group port l h = elim (dec_lt port 9001) [
  | yes a ↦ at_port port 9000 (first o) (omega arith)
  | no a ↦ elim (dec_lt port 9002) [
    | yes b ↦ at_port port 9001 (second o) (omega arith)
    | no b ↦ elim (dec_lt port 9003) [
      | yes c ↦ at_port port 9002 (third o) (omega arith)
      | no c ↦ at_port port 9003 (fourth o) (omega arith)
    ]
  ]
]
  where
    Once : ByteOrder → ℕ → Type 0
    Once o p =
        datagrams_to (htons o p) (greeting_run o host group) ≡ (hello_to_port ++ to_string p) ∷ []

    at_port : (p q : ℕ) → Once o q → p ≡ q → Once o p
    at_port p q a e = subst (Once o) (sym e) a

    first : (o : ByteOrder) → Once o 9000
    first little = refl
    first big = refl

    second : (o : ByteOrder) → Once o 9001
    second little = refl
    second big = refl

    third : (o : ByteOrder) → Once o 9002
    third little = refl
    third big = refl

    fourth : (o : ByteOrder) → Once o 9003
    fourth little = refl
    fourth big = refl

-- A client that is given its port and receives a text.
unicast_done :
    (o : ByteOrder) (sys : System) (buffer program arg bytes : List ℕ) (port : ℕ)
    → length buffer ≡ 1024
    → parse_port o arg ≡ some port
    → Succeed sys [] (opens ∷ unicast_calls port (sys.result [] opens))
    → sys.input (opens ∷ unicast_calls port (sys.result [] opens)) ≡ got bytes
    → length bytes < 1024
    → unicast_main o sys buffer (program ∷ arg ∷ []) []
      ≡ exits (pos 0) (
          opens
          ∷ binds (sys.result [] opens) (any_address port)
          ∷ receives (sys.result [] opens) 1024
          ∷ prints (c_str bytes)
          ∷ closes (sys.result [] opens)
          ∷ [])
unfolding unicast_main unicast_client with_port receive_and_print Succeed
unicast_done o sys buffer program arg bytes port full parsed ok input short =
    rw (parsed, ok.0, ok.1.0, input) (rw (terminated-got buffer bytes (omega (arith, full))) refl)

greeting-IsText : (port : ℕ) → IsText (hello_to_port ++ to_string port)
greeting-IsText port =
    All-append (λ b. b ≢ 0) hello_to_port (to_string port) (omega arith)
      (digits_of (to_string port) (to_string-All port))
  where
    digits_of : (s : List ℕ) → All IsDigit s → IsText s
    digits_of [] h = tt
    digits_of (b ∷ bs) h = ((λ e. absurd (omega (arith, h.0, e))), digits_of bs h.1)

-- If no option of the host is refused and each of its messages is sent, the host ends with 0; and a unicast
-- client that is given one of the ports 9000 to 9003 in decimal, whose calls succeed, and whose recvfrom gives a datagram that
-- the host has sent to the port that the client has bound, prints "hello to port " and this port, closes its socket and ends with 0.
pub unicast_main-main :
    (o : ByteOrder) (host client : System) (group port : ℕ) (buffer program d : List ℕ)
    (before after : List (List ℕ))
    → Willing host
    → 8999 < port
    → port < 9004
    → length buffer ≡ 1024
    → Succeed client [] (opens ∷ unicast_calls (htons o port) (client.result [] opens))
    → client.input (opens ∷ unicast_calls (htons o port) (client.result [] opens)) ≡ got d
    → before ++ (d ∷ after) ≡ datagrams_to (htons o port) (calls_of (Host.main o host group []))
    → (Host.main o host group [] ≡ exits (pos 0) (greeting_run o host group))
      × (unicast_main o client buffer (program ∷ to_string port ∷ []) []
          ≡ exits (pos 0) (
              opens
              ∷ binds (client.result [] opens) (any_address (htons o port))
              ∷ receives (client.result [] opens) 1024
              ∷ prints (hello_to_port ++ to_string port)
              ∷ closes (client.result [] opens)
              ∷ []))
unicast_main-main o host client group port buffer program d before after w l h full ok input sent =
    let run = main-greeting_run o host group w in
    let text : List ℕ = hello_to_port ++ to_string port in
    let same : d ≡ text = only_one text d before after (
      sent
      ∙ ap (λ x. datagrams_to (htons o port) (calls_of x)) run
      ∙ one_greeting o host group port l h) in
    (
      run,
      unicast_done o client buffer program (to_string port) text (htons o port) full
            (parse_port-to_string o port (omega arith) (omega arith)) ok (input ∙ ap got same)
            (omega (
              arith,
              length-append hello_to_port (to_string port),
              length-to_string port (omega arith),
            ))
          ∙ ap
              (λ x. exits (pos 0) (
                opens
                ∷ binds (client.result [] opens) (any_address (htons o port))
                ∷ receives (client.result [] opens) 1024
                ∷ prints x
                ∷ closes (client.result [] opens)
                ∷ []))
              (c_str_text text (greeting-IsText port)),
    )
