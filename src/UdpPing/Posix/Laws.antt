-- ===== src/UdpPing/Posix/Laws.antt =====
-- All ends of the two programs.
use dirty_net.Prelude.{
  ℕ, ◌<◌, ◌≡◌, inl, inr, refl, List, [], ◌∷◌, ◌++◌, true, false, Bool-cases, length,
}
use dirty_net.Prelude.Int.{ℤ, pos, is_negative}
use dirty_net.ByteOrder.{ByteOrder, htons}
use dirty_net.Text.{c_str}
use dirty_net.Stream.{got}
use dirty_net.Sandbox.{
  Address, Call, opens, binds, prints, receives, sends, closes, System, Step, exits, undefined,
  and_then, ◌>>◌, exit, call,
}
use dirty_net.Sandbox.Receive.{
  Sized, Succeed, NoRoom, Received, no_room, text_received, receive_text-Received,
}
use dirty_net.UdpPing.{client_greeting, server_response}
use dirty_net.UdpPing.Posix.{client_main, server_main}

-- `checked` are the calls whose results are looked at, `before` those in front of recvfrom, and `behind` those that follow the printed text.
pub data Pings (sys : System) (checked before behind : ℤ → List Call)
    : Step (Unit {0}) → Type 0 where
  no_socket :
      is_negative (sys.result [] opens) ≡ true
      → Pings sys checked before behind (exits (sys.result [] opens) (opens ∷ []))
  not_bound :
      (fd : ℤ) (address : Address)
      → fd ≡ sys.result [] opens
      → checked fd ≡ opens ∷ binds fd address ∷ []
      → is_negative fd ≡ false
      → is_negative (sys.result (opens ∷ []) (binds fd address)) ≡ true
      → Pings sys checked before behind
          (exits (sys.result (opens ∷ []) (binds fd address)) (opens ∷ binds fd address ∷ []))
  overruns :
      (fd : ℤ)
      → fd ≡ sys.result [] opens
      → Succeed sys [] (checked fd)
      → NoRoom (sys.input (before fd))
      → Pings sys checked before behind undefined
  prints_text :
      (fd : ℤ) (bytes : List ℕ)
      → fd ≡ sys.result [] opens
      → Succeed sys [] (checked fd)
      → sys.input (before fd) ≡ got bytes
      → length bytes < 1024
      → Pings sys checked before behind
          (exits (pos 0) (before fd ++ (receives fd 1024 ∷ prints (c_str bytes) ∷ behind fd)))

abbrev pub server_address : ByteOrder → ℕ → Address
server_address o addr = record { sin_port = htons o 8090; sin_addr = addr }

abbrev pub socket_call : ℤ → List Call
socket_call fd = opens ∷ []

abbrev pub client_calls : ByteOrder → ℕ → ℤ → List Call
client_calls o loopback fd = opens ∷ sends fd client_greeting (server_address o loopback) ∷ []

abbrev pub server_calls : ByteOrder → ℤ → List Call
server_calls o fd = opens ∷ binds fd (server_address o 0) ∷ []

abbrev pub client_end : ℤ → List Call
client_end fd = closes fd ∷ []

-- The server answers to the address that recvfrom has given.
abbrev pub server_end : ByteOrder → System → ℤ → List Call
server_end o sys fd = sends fd server_response (sys.sender (server_calls o fd)) ∷ closes fd ∷ []

client_rest :
    (o : ByteOrder) (sys : System) (loopback : ℕ) {e : Step (List ℕ)}
    → Succeed sys [] (opens ∷ [])
    → Received
        (client_calls o loopback (sys.result [] opens))
        (sys.result [] opens)
        (sys.input (client_calls o loopback (sys.result [] opens)))
        e
    → Pings sys socket_call (client_calls o loopback) client_end (
        and_then e
          (λ text. call (prints text) >> (call (closes (sys.result [] opens)) >> exit (pos 0))))
client_rest o sys loopback nn (no_room n) = overruns (sys.result [] opens) refl nn n
client_rest o sys loopback nn (text_received bytes e l) =
    prints_text (sys.result [] opens) bytes refl nn e l

server_rest :
    (o : ByteOrder) (sys : System) {e : Step (List ℕ)}
    → Succeed sys [] (server_calls o (sys.result [] opens))
    → Received
        (server_calls o (sys.result [] opens))
        (sys.result [] opens)
        (sys.input (server_calls o (sys.result [] opens)))
        e
    → Pings sys (server_calls o) (server_calls o) (server_end o sys) (
        and_then e (λ text.
          call (prints text)
          >> (call (
                sends
                  (sys.result [] opens)
                  server_response
                  (sys.sender (server_calls o (sys.result [] opens))))
              >> (call (closes (sys.result [] opens)) >> exit (pos 0)))))
server_rest o sys nn (no_room n) = overruns (sys.result [] opens) refl nn n
server_rest o sys nn (text_received bytes e l) = prints_text (sys.result [] opens) bytes refl nn e l

client_main-Pings :
    (o : ByteOrder) (sys : System) (buffer : List ℕ) (loopback : ℕ)
    → length buffer ≡ 1024
    → Sized sys
    → Pings sys socket_call
        (client_calls o loopback)
        client_end
        (client_main o sys buffer loopback [])
unfolding client_main Succeed
client_main-Pings o sys buffer loopback full sized =
    let fd : ℤ = sys.result [] opens in
    elim (Bool-cases (is_negative fd)) [
      | inl e ↦ rw e (no_socket e)
      | inr e ↦ rw e (
          client_rest o sys loopback (e, tt)
            (receive_text-Received sys buffer fd (client_calls o loopback fd) full sized))
    ]

server_main-Pings :
    (o : ByteOrder) (sys : System) (buffer : List ℕ)
    → length buffer ≡ 1024
    → Sized sys
    → Pings sys (server_calls o) (server_calls o) (server_end o sys) (server_main o sys buffer [])
unfolding server_main Succeed
server_main-Pings o sys buffer full sized =
    let fd : ℤ = sys.result [] opens in
    elim (Bool-cases (is_negative fd)) [
      | inl e ↦ rw e (no_socket e)
      | inr e ↦
          elim (Bool-cases
            (is_negative (sys.result (opens ∷ []) (binds fd (server_address o 0))))) [
              | inl f ↦ rw (e, f) (not_bound fd (server_address o 0) refl refl e f)
              | inr f ↦
                  rw (e, f)
                    (server_rest o sys (e, (f, tt))
                      (receive_text-Received sys buffer fd (server_calls o fd) full sized))
            ]
    ]

-- The main functions of udp-ping's client and server end in one of these ways, whatever the calls return, if the buffer has
-- its 1024 bytes and recvfrom gives no more than these. A socket, or for the server a bind, that fails is the exit code. If
-- recvfrom gives less than 1024 bytes, these are printed up to the first NUL, the server sends its response to the
-- address that recvfrom gave, the socket is closed and the exit code is 0. If recvfrom fails or fills the buffer,
-- the NUL is written outside the buffer.
pub mains-Pings :
    (o : ByteOrder) (sys : System) (buffer : List ℕ) (loopback : ℕ)
    → length buffer ≡ 1024
    → Sized sys
    → Pings sys socket_call
        (client_calls o loopback)
        client_end
        (client_main o sys buffer loopback [])
      × Pings sys (server_calls o) (server_calls o) (server_end o sys) (server_main o sys buffer [])
mains-Pings o sys buffer loopback full sized =
    (client_main-Pings o sys buffer loopback full sized, server_main-Pings o sys buffer full sized)
