-- ===== src/UdpMany/Host/Greets.antt =====
-- A run of the host in which nothing fails.
use dirty_net.Prelude.{ℕ, ◌<◌, ◌^◌, ◌≡◌, refl, List, [], ◌∷◌, ◌++◌, false, arith}
use dirty_net.Prelude.Int.{ℤ, pos, is_negative}
use dirty_net.ByteOrder.{ByteOrder, htons}
use dirty_net.ByteOrder.Laws.{ntohs-htons}
use dirty_net.Text.{to_string}
use dirty_net.Sandbox.{Address, Call, opens, sets_option, sends, closes, System, next, exits}
use dirty_net.UdpMany.Host.{
  Target, Globals, unicast_ports, close_targets, cleanup, open_targets, less_than_one, set_option,
  send_greeting, greeting_for, greet_targets, hello_to_port, hello_multicast, multicast_ttl,
  multicast_loop, multicast_if, serve_clients, with_targets, main,
}

-- No option is refused, and every message is sent, at least in part.
pub record Willing (sys : System) : Type 0 where
  pub options :
      (t : List Call) (fd : ℤ) (n : ℕ) → is_negative (sys.result t (sets_option fd n)) ≡ false
  pub messages :
      (t : List Call) (fd : ℤ) (bytes : List ℕ) (to : Address)
      → less_than_one (sys.result t (sends fd bytes to)) ≡ false

set_option_done :
    (sys : System) (g : Globals) (n : ℕ) (t : List Call)
    → Willing sys
    → set_option sys g n t ≡ next tt (t ++ (sets_option g.multi_sockfd n ∷ []))
unfolding set_option
set_option_done sys g n t w = rw (w.options t g.multi_sockfd n) refl

send_greeting_done :
    (sys : System) (g : Globals) (fd : ℤ) (bytes : List ℕ) (to : Address) (t : List Call)
    → Willing sys
    → send_greeting sys g fd bytes to t ≡ next tt (t ++ (sends fd bytes to ∷ []))
unfolding send_greeting
send_greeting_done sys g fd bytes to t w = rw (w.messages t fd bytes to) refl

-- The greeting of a client by its port.
abbrev pub greeting_to : ByteOrder → ℤ → ℕ → Call
greeting_to o fd port =
    sends fd (hello_to_port ++ to_string port) (record { sin_port = htons o port; sin_addr = 0 })

abbrev target : ByteOrder → ℤ → ℕ → Target
target o fd port = record { fd = fd; address = record { sin_port = htons o port; sin_addr = 0 } }

greet_done :
    (o : ByteOrder) (sys : System) (g : Globals) (fd : ℤ) (port : ℕ) (t : List Call)
    → Willing sys
    → port < 2 ^ 16
    → send_greeting sys g fd
        (greeting_for o (target o fd port))
        (record { sin_port = htons o port; sin_addr = 0 })
        t
      ≡ next tt (t ++ (greeting_to o fd port ∷ []))
unfolding greeting_for
greet_done o sys g fd port t w h = rw (ntohs-htons o port h) (send_greeting_done sys g fd _ _ t w)

-- The sockets of such a run, in the order in which they are made.
pub socket_result : System → List Call → ℤ
socket_result sys made = sys.result made opens

abbrev pub greeting_run : ByteOrder → System → ℕ → List Call
greeting_run o sys group =
    let a : ℤ = socket_result sys [] in
    let b : ℤ = socket_result sys (opens ∷ []) in
    let c : ℤ = socket_result sys (opens ∷ opens ∷ []) in
    let d : ℤ = socket_result sys (opens ∷ opens ∷ opens ∷ []) in
    let m : ℤ = socket_result sys (opens ∷ opens ∷ opens ∷ opens ∷ []) in
    opens
    ∷ opens
    ∷ opens
    ∷ opens
    ∷ opens
    ∷ sets_option m multicast_ttl
    ∷ sets_option m multicast_loop
    ∷ sets_option m multicast_if
    ∷ greeting_to o a 9000
    ∷ greeting_to o b 9001
    ∷ greeting_to o c 9002
    ∷ greeting_to o d 9003
    ∷ sends m hello_multicast (record { sin_port = htons o 10000; sin_addr = group })
    ∷ closes a
    ∷ closes b
    ∷ closes c
    ∷ closes d
    ∷ closes m
    ∷ []

-- If no option is refused and every sendto sends a byte at least, the host exits with 0, and it has sent
-- to each of the ports 9000 to 9003, by a socket of its own, "hello to port " with the port in decimal, and to
-- port 10000 of the group the multicast greeting, and has closed all five sockets.
pub main-greeting_run :
    (o : ByteOrder) (sys : System) (group : ℕ)
    → Willing sys
    → main o sys group [] ≡ exits (pos 0) (greeting_run o sys group)
unfolding main with_targets serve_clients open_targets unicast_ports greet_targets cleanup
    close_targets socket_result
main-greeting_run o sys group w =
    let m : ℤ = sys.result (opens ∷ opens ∷ opens ∷ opens ∷ []) opens in
    let made : List Target =
      target o (sys.result [] opens) 9000
      ∷ target o (sys.result (opens ∷ []) opens) 9001
      ∷ target o (sys.result (opens ∷ opens ∷ []) opens) 9002
      ∷ target o (sys.result (opens ∷ opens ∷ opens ∷ []) opens) 9003
      ∷ [] in
    let g : Globals = record { client_targets = made; multi_sockfd = m } in
    rw (set_option_done sys g multicast_ttl _ w) (
      rw (set_option_done sys g multicast_loop _ w) (
        rw (set_option_done sys g multicast_if _ w) (
          rw (greet_done o sys g _ 9000 _ w (omega arith)) (
            rw (greet_done o sys g _ 9001 _ w (omega arith)) (
              rw (greet_done o sys g _ 9002 _ w (omega arith)) (
                rw (greet_done o sys g _ 9003 _ w (omega arith))
                  (rw (send_greeting_done sys g m hello_multicast _ _ w) refl)))))))
