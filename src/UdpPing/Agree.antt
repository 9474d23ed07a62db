-- ===== src/UdpPing/Agree.antt =====
-- The programs over the system's calls and those over the library make the same calls.
mod Tests
use dirty_net.Prelude.{
  ℕ, ◌<◌, ◌≡◌, refl, sym, ap, List, [], ◌∷◌, ◌++◌, false, length, replicate, arith,
}
use dirty_net.Prelude.Int.{ℤ, pos, is_negative}
use dirty_net.ByteOrder.{ByteOrder, htons}
use dirty_net.Text.{c_str}
use dirty_net.Text.Laws.{IsText, c_str_text}
use dirty_net.Stream.{got}
use dirty_net.Posix.Ip.{ipv4_localhost}
use dirty_net.Posix.Port.{posix, port_of}
use dirty_net.Posix.Endpoint.{SockaddrIn, sockaddr_in_bytes, addr_info, endpoint_of}
use dirty_net.Posix.UdpSocket.{recv_got}
use dirty_net.Posix.UdpSocket
use dirty_net.Posix.UdpSocket.Ownership.Laws.{no_sockets}
use dirty_net.Public.Port.{public_port}
use dirty_net.Public.Endpoint.{public_endpoint}
use dirty_net.Sandbox.{
  Address, Call, opens, binds, prints, receives, sends, closes, System, Step, exits,
}
use dirty_net.Sandbox.Laws.{terminated-got}
use dirty_net.UdpPing.{client_greeting, server_response}
use dirty_net.UdpPing.Posix.{server_main, client_main}
use dirty_net.UdpPing.Posix.Laws.{server_address, server_calls, client_calls}
use dirty_net.UdpPing.Library
use dirty_net.UdpPing.Library.Exchange.{server_run, client_run, server_answers, client_prints}

-- The struct of an IPv4 address, its padding zero.
abbrev pub struct_of_address : Address → SockaddrIn
struct_of_address a = record {
  sin_family = 2;
  sin_port = a.sin_port;
  sin_addr = a.sin_addr;
  sin_zero = replicate 8 0;
}

-- A call of either program: the size of the buffer that recvfrom gets is left out, since it differs.
pub data SocketCall : Type 0 where
  opened : SocketCall
  bound_to : ℤ → List ℕ × ℕ → SocketCall
  sent_to : ℤ → List ℕ → List ℕ × ℕ → SocketCall
  received_by closed_by : ℤ → SocketCall

abbrev pub posix_calls : ByteOrder → List Call → List SocketCall
posix_calls o [] = []
posix_calls o (opens ∷ cs) = opened ∷ posix_calls o cs
posix_calls o (binds fd a ∷ cs) =
    bound_to fd (sockaddr_in_bytes o (struct_of_address a), 16) ∷ posix_calls o cs
posix_calls o (sends fd bytes a ∷ cs) =
    sent_to fd bytes (sockaddr_in_bytes o (struct_of_address a), 16) ∷ posix_calls o cs
posix_calls o (receives fd size ∷ cs) = received_by fd ∷ posix_calls o cs
posix_calls o (closes fd ∷ cs) = closed_by fd ∷ posix_calls o cs
posix_calls o (_ ∷ cs) = posix_calls o cs

-- The library's world has its last call first.
abbrev pub library_calls : List UdpSocket.Call → List SocketCall
library_calls [] = []
library_calls (UdpSocket.socket_gave fd ∷ cs) = library_calls cs ++ (opened ∷ [])
library_calls (UdpSocket.bind_gave fd address n ∷ cs) =
    library_calls cs ++ (bound_to fd address ∷ [])
library_calls (UdpSocket.sendto_gave fd bytes address n ∷ cs) =
    library_calls cs ++ (sent_to fd bytes address ∷ [])
library_calls (UdpSocket.recvfrom_gave fd size ∷ cs) = library_calls cs ++ (received_by fd ∷ [])
library_calls (UdpSocket.closes fd ∷ cs) = library_calls cs ++ (closed_by fd ∷ [])
library_calls (_ ∷ cs) = library_calls cs

abbrev pub printed_by : List Call → List (List ℕ)
printed_by [] = []
printed_by (prints text ∷ cs) = text ∷ printed_by cs
printed_by (_ ∷ cs) = printed_by cs

-- The two ends of a program: the exit codes, the calls and what is printed.
pub record Agree (o : ByteOrder) (end : Step (Unit {0})) (ended : Library.Ended) : Type 0 where
  pub code : ℤ
  pub made : List Call
  pub same_end : end ≡ exits code made
  pub same_code : ended.code ≡ code
  pub same_calls : posix_calls o made ≡ library_calls ended.world.calls
  pub same_text : printed_by made ≡ ended.printed

abbrev server_made : ByteOrder → System → ℤ → List ℕ → List Call
server_made o sys fd text =
    opens
    ∷ binds fd (server_address o 0)
    ∷ receives fd 1024
    ∷ prints text
    ∷ sends fd server_response (sys.sender (server_calls o fd))
    ∷ closes fd
    ∷ []

posix_server :
    (o : ByteOrder) (sys : System) (buffer bytes : List ℕ)
    → length buffer ≡ 1024
    → is_negative (sys.result [] opens) ≡ false
    → is_negative (sys.result (opens ∷ []) (binds (sys.result [] opens) (server_address o 0)))
      ≡ false
    → sys.input (server_calls o (sys.result [] opens)) ≡ got bytes
    → length bytes < 1024
    → IsText bytes
    → server_main o sys buffer [] ≡ exits (pos 0) (server_made o sys (sys.result [] opens) bytes)
unfolding server_main
posix_server o sys buffer bytes full e f input short text =
    rw (e, f, input)
      (rw (terminated-got buffer bytes (omega (arith, full))) (rw (c_str_text bytes text) refl))

abbrev client_made : ByteOrder → ℤ → List ℕ → List Call
client_made o fd text =
    opens
    ∷ sends fd client_greeting (server_address o (ipv4_localhost o).s_addr)
    ∷ receives fd 1024
    ∷ prints text
    ∷ closes fd
    ∷ []

posix_client :
    (o : ByteOrder) (sys : System) (buffer bytes : List ℕ)
    → length buffer ≡ 1024
    → is_negative (sys.result [] opens) ≡ false
    → sys.input (client_calls o (ipv4_localhost o).s_addr (sys.result [] opens)) ≡ got bytes
    → length bytes < 1024
    → IsText bytes
    → client_main o sys buffer (ipv4_localhost o).s_addr []
      ≡ exits (pos 0) (client_made o (sys.result [] opens) bytes)
unfolding client_main
posix_client o sys buffer bytes full e input short text =
    rw (e, input)
      (rw (terminated-got buffer bytes (omega (arith, full))) (rw (c_str_text bytes text) refl))

-- Where no call fails, and recvfrom gives a text of less than 1024 bytes without a NUL, with an IPv4 sender's address whose
-- padding is zero, the server over the system's calls and the server over the library end with the same code, have made the same
-- calls on the same descriptor with the same bytes and addresses in memory, except for the size of the buffer given to
-- recvfrom, and have printed the same text.
pub server_main-server_main :
    (o : ByteOrder) (sys : System) (buffer bytes : List ℕ) (n : ℤ)
    → length buffer ≡ 1024
    → is_negative (sys.result [] opens) ≡ false
    → is_negative (sys.result (opens ∷ []) (binds (sys.result [] opens) (server_address o 0)))
      ≡ false
    → sys.input (server_calls o (sys.result [] opens)) ≡ got bytes
    → length bytes < 1024
    → IsText bytes
    → is_negative n ≡ false
    → Agree o (server_main o sys buffer []) (
        Library.server_main o
          (sys.result [] opens)
          (sys.result (opens ∷ []) (binds (sys.result [] opens) (server_address o 0)))
          (recv_got bytes (struct_of_address (sys.sender (server_calls o (sys.result [] opens)))))
          n
          no_sockets)
unfolding addr_info public_endpoint endpoint_of posix public_port port_of
server_main-server_main o sys buffer bytes n full e f input short text g =
    let fd : ℤ = sys.result [] opens in
    let served =
      server_answers o fd (sys.result (opens ∷ []) (binds fd (server_address o 0))) n
        (struct_of_address (sys.sender (server_calls o fd))) bytes e f g in
    record {
      code = pos 0;
      made = server_made o sys fd bytes;
      same_end = posix_server o sys buffer bytes full e f input short text;
      same_code = ap (λ x. x.code) served;
      same_calls = sym (ap (λ x. library_calls x.world.calls) served);
      same_text = sym (ap (λ x. x.printed) served);
    }

-- So do the two clients, where no call fails, and recvfrom gives a text of less than 1024 bytes without a NUL, if
-- inet_addr gives the number that 127.0.0.1 is in network order.
pub client_main-client_main :
    (o : ByteOrder) (sys : System) (buffer bytes : List ℕ) (server : SockaddrIn) (n : ℤ)
    → length buffer ≡ 1024
    → is_negative (sys.result [] opens) ≡ false
    → sys.input (client_calls o (ipv4_localhost o).s_addr (sys.result [] opens)) ≡ got bytes
    → length bytes < 1024
    → IsText bytes
    → is_negative n ≡ false
    → Agree o
        (client_main o sys buffer (ipv4_localhost o).s_addr [])
        (Library.client_main o (sys.result [] opens) n (recv_got bytes server) no_sockets)
unfolding addr_info public_endpoint endpoint_of posix public_port port_of
client_main-client_main o sys buffer bytes server n full e input short text g =
    let fd : ℤ = sys.result [] opens in
    let played = client_prints o fd n server bytes e g in
    record {
      code = pos 0;
      made = client_made o fd bytes;
      same_end = posix_client o sys buffer bytes full e input short text;
      same_code = ap (λ x. x.code) played;
      same_calls = sym (ap (λ x. library_calls x.world.calls) played);
      same_text = sym (ap (λ x. x.printed) played);
    }
