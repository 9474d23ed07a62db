-- ===== src/UdpMany/Delivery/Multicast.antt =====
-- The host and a multicast client.
use dirty_net.Prelude.{
  ℕ, ◌<◌, ◌≡◌, refl, ap, ◌∙◌, List, [], ◌∷◌, ◌++◌, some, arith, length, only_one,
}
use dirty_net.Prelude.Int.{pos}
use dirty_net.ByteOrder.{ByteOrder, little, big, htons}
use dirty_net.Text.{to_string, c_str}
use dirty_net.Text.Laws.{c_str_text}
use dirty_net.Stream.{got}
use dirty_net.Sandbox.{opens, sets_option, binds, receives, prints, closes, System, exits}
use dirty_net.Sandbox.Laws.{terminated-got}
use dirty_net.Sandbox.Receive.{Succeed}
use dirty_net.UdpMany.ParsePort.{parse_port, parse_port-to_string}
use dirty_net.UdpMany.Clients.{
  any_address, receive_and_print, multicast_client, multicast_main, with_port, reuseaddr,
  add_membership,
}
use dirty_net.UdpMany.Clients.Laws.{multicast_calls}
use dirty_net.UdpMany.Host.{hello_multicast}
use dirty_net.UdpMany.Host
use dirty_net.UdpMany.Host.Greets.{Willing, greeting_run, main-greeting_run}
use dirty_net.UdpMany.Delivery.{calls_of, datagrams_to}

one_multicast :
    (o : ByteOrder) (host : System) (group : ℕ)
    → datagrams_to (htons o 10000) (greeting_run o host group) ≡ hello_multicast ∷ []
unfolding htons
one_multicast little host group = refl
one_multicast big host group = refl

multicast_done :
    (o : ByteOrder) (sys : System) (buffer program arg bytes : List ℕ) (port : ℕ)
    → length buffer ≡ 1024
    → parse_port o arg ≡ some port
    → Succeed sys [] (opens ∷ multicast_calls port (sys.result [] opens))
    → sys.input (opens ∷ multicast_calls port (sys.result [] opens)) ≡ got bytes
    → length bytes < 1024
    → multicast_main o sys buffer (program ∷ arg ∷ []) []
      ≡ exits (pos 0) (
          opens
          ∷ (multicast_calls port (sys.result [] opens)
              ++ (receives (sys.result [] opens) 1024
                  ∷ prints (c_str bytes)
                  ∷ closes (sys.result [] opens)
                  ∷ [])))
unfolding multicast_main multicast_client with_port receive_and_print Succeed
multicast_done o sys buffer program arg bytes port full parsed ok input short =
    rw (parsed, ok.0, ok.1.0, ok.1.1.0, ok.1.1.1.0, input)
      (rw (terminated-got buffer bytes (omega (arith, full))) refl)

-- A multicast client that is given the port 10000, whose calls succeed, and whose recvfrom gives a datagram that
-- the host has sent to this port, if no option of the host is refused and each of its messages is sent, joins the group
-- behind its bind, prints the multicast greeting, closes its socket and ends with 0.
pub multicast_main-main :
    (o : ByteOrder) (host client : System) (group : ℕ) (buffer program d : List ℕ)
    (before after : List (List ℕ))
    → Willing host
    → length buffer ≡ 1024
    → Succeed client [] (opens ∷ multicast_calls (htons o 10000) (client.result [] opens))
    → client.input (opens ∷ multicast_calls (htons o 10000) (client.result [] opens)) ≡ got d
    → before ++ (d ∷ after) ≡ datagrams_to (htons o 10000) (calls_of (Host.main o host group []))
    → multicast_main o client buffer (program ∷ to_string 10000 ∷ []) []
      ≡ exits (pos 0) (
          opens
          ∷ sets_option (client.result [] opens) reuseaddr
          ∷ binds (client.result [] opens) (any_address (htons o 10000))
          ∷ sets_option (client.result [] opens) add_membership
          ∷ receives (client.result [] opens) 1024
          ∷ prints hello_multicast
          ∷ closes (client.result [] opens)
          ∷ [])
multicast_main-main o host client group buffer program d before after w full ok input sent =
    let same : d ≡ hello_multicast = only_one hello_multicast d before after (
      sent
      ∙ ap (λ x. datagrams_to (htons o 10000) (calls_of x)) (main-greeting_run o host group w)
      ∙ one_multicast o host group) in
    multicast_done o client buffer program (to_string 10000) hello_multicast (htons o 10000) full
      (parse_port-to_string o 10000 (omega arith) (omega arith)) ok (input ∙ ap got same)
      (omega arith)
    ∙ ap
        (λ x. exits (pos 0) (
          opens
          ∷ (multicast_calls (htons o 10000) (client.result [] opens)
              ++ (receives (client.result [] opens) 1024
                  ∷ prints x
                  ∷ closes (client.result [] opens)
                  ∷ []))))
        (c_str_text hello_multicast (omega arith))
