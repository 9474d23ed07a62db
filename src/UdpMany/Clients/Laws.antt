-- ===== src/UdpMany/Clients/Laws.antt =====
-- All ends of the two clients.
use dirty_net.Prelude.{
  ℕ, ◌<◌, ◌≡◌, inl, inr, refl, subst, append_assoc, List, [], ◌∷◌, ◌++◌, none, some, Option-cases,
  true, Bool-cases, length,
}
use dirty_net.Prelude.Int.{ℤ, pos, is_negative}
use dirty_net.ByteOrder.{ByteOrder}
use dirty_net.Text.{c_str}
use dirty_net.Stream.{ReadResult, got}
use dirty_net.UdpMany.ParsePort.{parse_port}
use dirty_net.Sandbox.{
  Call, opens, sets_option, binds, prints, receives, closes, System, Step, exits, undefined,
  and_then, M, ◌>>◌, exit, call,
}
use dirty_net.Sandbox.Receive.{
  Sized, Succeed, NoRoom, Received, no_room, text_received, receive_text-Received,
}
use dirty_net.UdpMany.Clients.{
  any_address, receive_and_print, unicast_client, reuseaddr, add_membership, multicast_client,
  with_port, unicast_main, multicast_main,
}

-- `checked` are the calls between socket and recvfrom.
pub data Ends (sys : System) (checked : ℤ → List Call) : Step (Unit {0}) → Type 0 where
  no_socket :
      is_negative (sys.result [] opens) ≡ true
      → Ends sys checked (exits (sys.result [] opens) (opens ∷ []))
  refused :
      (fd : ℤ) (front behind : List Call) (c : Call)
      → fd ≡ sys.result [] opens
      → checked fd ≡ front ++ (c ∷ behind)
      → Succeed sys [] (opens ∷ front)
      → is_negative (sys.result (opens ∷ front) c) ≡ true
      → Ends sys checked (exits (sys.result (opens ∷ front) c) (opens ∷ (front ++ (c ∷ []))))
  overruns :
      (fd : ℤ)
      → fd ≡ sys.result [] opens
      → Succeed sys [] (opens ∷ checked fd)
      → NoRoom (sys.input (opens ∷ checked fd))
      → Ends sys checked undefined
  prints_text :
      (fd : ℤ) (bytes : List ℕ)
      → fd ≡ sys.result [] opens
      → Succeed sys [] (opens ∷ checked fd)
      → sys.input (opens ∷ checked fd) ≡ got bytes
      → length bytes < 1024
      → Ends sys checked (
          exits
            (pos 0)
            (opens ∷ (checked fd ++ (receives fd 1024 ∷ prints (c_str bytes) ∷ closes fd ∷ []))))

pub data MainEnds (o : ByteOrder) (sys : System) (checked : ℕ → ℤ → List Call)
    (argv : List (List ℕ)) : Step (Unit {0}) → Type 0 where
  bad_usage :
      ((program arg : List ℕ) → argv ≡ program ∷ arg ∷ [] → parse_port o arg ≡ none)
      → MainEnds o sys checked argv (exits (pos 1) [])
  runs :
      (program arg : List ℕ) (port : ℕ) {end : Step (Unit {0})}
      → argv ≡ program ∷ arg ∷ []
      → parse_port o arg ≡ some port
      → Ends sys (checked port) end
      → MainEnds o sys checked argv end

abbrev pub unicast_calls : ℕ → ℤ → List Call
unicast_calls port fd = binds fd (any_address port) ∷ []

abbrev pub multicast_calls : ℕ → ℤ → List Call
multicast_calls port fd =
    sets_option fd reuseaddr ∷ binds fd (any_address port) ∷ sets_option fd add_membership ∷ []

-- The end behind the calls `cs`.
data Printed (cs : List Call) (fd : ℤ) (r : ReadResult) : Step (Unit {0}) → Type 0 where
  overrun : NoRoom r → Printed cs fd r undefined
  text_printed :
      (bytes : List ℕ)
      → r ≡ got bytes
      → length bytes < 1024
      → Printed cs fd r (
          exits
            (pos 0)
            (((cs ++ (receives fd 1024 ∷ [])) ++ (prints (c_str bytes) ∷ [])) ++ (closes fd ∷ [])))

received_print :
    (cs : List Call) (fd : ℤ) {r : ReadResult} {e : Step (List ℕ)}
    → Received cs fd r e
    → Printed cs fd r
        (and_then e (λ text. call (prints text) >> (call (closes fd) >> exit (pos 0))))
received_print cs fd (no_room n) = overrun n
received_print cs fd (text_received bytes e l) = text_printed bytes e l

receive_and_print-Printed :
    (sys : System) (buffer : List ℕ) (fd : ℤ) (cs : List Call)
    → length buffer ≡ 1024
    → Sized sys
    → Printed cs fd (sys.input cs) (receive_and_print sys buffer fd cs)
unfolding receive_and_print
receive_and_print-Printed sys buffer fd cs full sized =
    received_print cs fd (receive_text-Received sys buffer fd cs full sized)

Printed-Ends :
    (sys : System) (checked : ℤ → List Call) (end : Step (Unit {0}))
    → Succeed sys [] (opens ∷ checked (sys.result [] opens))
    → Printed
        (opens ∷ checked (sys.result [] opens))
        (sys.result [] opens)
        (sys.input (opens ∷ checked (sys.result [] opens)))
        end
    → Ends sys checked end
Printed-Ends sys checked end ok (overrun n) = overruns (sys.result [] opens) refl ok n
Printed-Ends sys checked end ok (text_printed bytes e l) =
    let fd : ℤ = sys.result [] opens in
    subst (λ cs. Ends sys checked (exits (pos 0) (opens ∷ cs))) (simp append_assoc)
      (prints_text fd bytes refl ok e l)

unicast_client-Ends :
    (sys : System) (buffer : List ℕ) (port : ℕ)
    → length buffer ≡ 1024
    → Sized sys
    → Ends sys (unicast_calls port) (unicast_client sys buffer port [])
unfolding unicast_client Succeed
unicast_client-Ends sys buffer port full sized =
    let fd : ℤ = sys.result [] opens in
    let bind_call : Call = binds fd (any_address port) in
    elim (Bool-cases (is_negative fd)) [
      | inl e ↦ rw e (no_socket e)
      | inr e ↦ elim (Bool-cases (is_negative (sys.result (opens ∷ []) bind_call))) [
        | inl f ↦ rw (e, f) (refused fd [] [] bind_call refl refl (e, tt) f)
        | inr f ↦
            rw (e, f)
              (Printed-Ends sys (unicast_calls port) _ (e, (f, tt))
                (receive_and_print-Printed sys buffer fd (opens ∷ bind_call ∷ []) full sized))
      ]
    ]

multicast_client-Ends :
    (sys : System) (buffer : List ℕ) (port : ℕ)
    → length buffer ≡ 1024
    → Sized sys
    → Ends sys (multicast_calls port) (multicast_client sys buffer port [])
unfolding multicast_client Succeed
multicast_client-Ends sys buffer port full sized =
    let fd : ℤ = sys.result [] opens in
    let reuse : Call = sets_option fd reuseaddr in
    let bind_call : Call = binds fd (any_address port) in
    let join : Call = sets_option fd add_membership in
    elim (Bool-cases (is_negative fd)) [
      | inl e ↦ rw e (no_socket e)
      | inr e ↦ elim (Bool-cases (is_negative (sys.result (opens ∷ []) reuse))) [
        | inl f ↦ rw (e, f) (refused fd [] (bind_call ∷ join ∷ []) reuse refl refl (e, tt) f)
        | inr f ↦ elim (Bool-cases (is_negative (sys.result (opens ∷ reuse ∷ []) bind_call))) [
          | inl g ↦
              rw (e, f, g) (refused fd (reuse ∷ []) (join ∷ []) bind_call refl refl (e, (f, tt)) g)
          | inr g ↦
              elim (Bool-cases (is_negative (sys.result (opens ∷ reuse ∷ bind_call ∷ []) join))) [
                | inl k ↦
                    rw (e, f, g, k)
                      (refused fd (reuse ∷ bind_call ∷ []) [] join refl refl (e, (f, (g, tt))) k)
                | inr k ↦
                    rw (e, f, g, k)
                      (Printed-Ends sys (multicast_calls port) _ (e, (f, (g, (k, tt))))
                        (receive_and_print-Printed sys buffer fd
                          (opens ∷ reuse ∷ bind_call ∷ join ∷ []) full sized))
              ]
        ]
      ]
    ]

with_port-MainEnds :
    (o : ByteOrder) (sys : System) (checked : ℕ → ℤ → List Call) (rest : ℕ → M (Unit {0}))
    (argv : List (List ℕ))
    → ((port : ℕ) → Ends sys (checked port) (rest port []))
    → MainEnds o sys checked argv (with_port o argv rest [])
unfolding with_port
with_port-MainEnds o sys checked rest [] ends = bad_usage (λ p a e. cc)
with_port-MainEnds o sys checked rest (program ∷ []) ends = bad_usage (λ p a e. cc)
with_port-MainEnds o sys checked rest (program ∷ arg ∷ more ∷ others) ends = bad_usage (λ p a e. cc)
with_port-MainEnds o sys checked rest (program ∷ arg ∷ []) ends =
    elim (Option-cases (parse_port o arg)) [
      | inl e ↦ rw e (bad_usage (λ p a f. cc))
      | inr (port, e) ↦ rw e (runs program arg port refl e (ends port))
    ]

-- The main functions of both udp-many clients end in one of these ways, for all arguments and whatever the calls
-- return, if the buffer has its 1024 bytes and recvfrom gives no more than these. Without exactly one argument
-- that parsePort accepts the exit code is 1 and nothing is called. The first call that fails gives the
-- exit code, and the socket stays open. If all calls succeed and recvfrom gives less than 1024 bytes, these are
-- printed up to the first NUL, the socket is closed and the exit code is 0. If recvfrom fails or
-- fills the buffer, the NUL is written outside the buffer.
pub clients-MainEnds :
    (o : ByteOrder) (sys : System) (buffer : List ℕ) (argv : List (List ℕ))
    → length buffer ≡ 1024
    → Sized sys
    → MainEnds o sys unicast_calls argv (unicast_main o sys buffer argv [])
      × MainEnds o sys multicast_calls argv (multicast_main o sys buffer argv [])
unfolding unicast_main multicast_main
clients-MainEnds o sys buffer argv full sized = (
  with_port-MainEnds o sys unicast_calls (unicast_client sys buffer) argv
      (λ port. unicast_client-Ends sys buffer port full sized),
  with_port-MainEnds o sys multicast_calls (multicast_client sys buffer) argv
      (λ port. multicast_client-Ends sys buffer port full sized),
)
