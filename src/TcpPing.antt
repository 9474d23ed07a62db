-- ===== src/TcpPing.antt =====
-- sandbox/tcp-ping/posix: a server that echoes what it reads until it reads QUIT, and its client.
pub mod Laws
pub mod Conversation
mod Tests
use dirty_net.Prelude.{
  ℕ, zero, suc, ◌-◌, List, [], ◌∷◌, ◌++◌, Bool, true, false, not, Run, done, fault, stuck,
  replicate, if◌then◌else◌,
}
use dirty_net.Prelude
use dirty_net.Prelude.Int.{ℤ, pos, is_negative, is_zero}
use dirty_net.ByteOrder.{ByteOrder, htons}
use dirty_net.Memory.{same_bytes}
use dirty_net.Stream.{ReadResult, failed, got}
use dirty_net.Sandbox.{
  Address, Call, opens, binds, connects, listens, accepts, receives, writes, closes, prints, System,
  Step, next, exits, undefined, and_then, M, ◌>>=◌, ◌>>◌, pure, exit, ask, call, lift,
  unless_negative, receive_text, terminated,
}

abbrev pub hello_from_server : List ℕ
hello_from_server =
    b'H' ∷ b'e' ∷ b'l' ∷ b'l' ∷ b'o' ∷ 32 ∷ b'f' ∷ b'r' ∷ b'o' ∷ b'm' ∷ 32 ∷ b's' ∷ b'e' ∷ b'r'
    ∷ b'v' ∷ b'e' ∷ b'r' ∷ b'[' ∷ []

abbrev pub quit : List ℕ
quit = b'Q' ∷ b'U' ∷ b'I' ∷ b'T' ∷ []

-- "Hello from server[" + clientMsg + "]"
abbrev pub response_to : List ℕ → List ℕ
response_to msg = hello_from_server ++ (msg ++ (b']' ∷ []))

-- One round of the loop gives whether the loop goes on. `bzero` clears the buffer, and `read` asks for one byte less.
pub echo : System → ℤ → M Bool
echo sys connfd = do
  msg ← receive_text sys connfd (replicate 1024 0) 1023
  call (prints msg)
  call (writes connfd (response_to msg))
  pure (not (same_bytes msg quit))

-- `while(running)`, for a number of rounds. A run that is still in the loop behind them is given by its calls.
pub data Rounds : Type 0 where
  left_loop : List Call → Rounds
  still_running : List Call → Rounds
  crashed : Rounds

abbrev pub after_round : (List Call → Rounds) → Step Bool → Rounds
after_round again (next true t) = again t
after_round again (next false t) = left_loop t
after_round again (exits c t) = crashed
after_round again undefined = crashed

pub rounds : System → ℤ → ℕ → List Call → Rounds
unfolding echo
rounds sys connfd zero t = still_running t
rounds sys connfd (suc n) t = after_round (rounds sys connfd n) (echo sys connfd t)

-- What the server does up to its loop: the connection. Port 8090, any address.
pub accept_client : ByteOrder → System → M ℤ
accept_client o sys = do
  sockfd ← ask sys opens
  unless_negative sockfd
  bound ← ask sys (binds sockfd (record { sin_port = htons o 8090; sin_addr = 0 }))
  unless_negative bound
  list ← ask sys (listens sockfd)
  if is_zero list then pure tt else exit list
  connfd ← ask sys (accepts sockfd)
  unless_negative connfd
  pure connfd

-- The server's main, with `n` rounds of the loop at most. Behind the loop only the listening socket is closed.
pub data Outcome : Type 0 where
  ended : ℤ → List Call → Outcome
  running : List Call → Outcome
  undefined_behaviour : Outcome

behind_loop : ℤ → Rounds → Outcome
behind_loop sockfd (left_loop t) = ended (pos 0) (t ++ (closes sockfd ∷ []))
behind_loop sockfd (still_running t) = running t
behind_loop sockfd crashed = undefined_behaviour

serve_from : System → ℕ → Step ℤ → Outcome
unfolding rounds behind_loop
serve_from sys n (next connfd t) = behind_loop (sys.result [] opens) (rounds sys connfd n t)
serve_from sys n (exits c t) = ended c t
serve_from sys n undefined = undefined_behaviour

unfoldable pub server_main : ByteOrder → System → ℕ → Outcome
unfolding serve_from accept_client
server_main o sys n = serve_from sys n (accept_client o sys [])

abbrev pub hello_from_client : List ℕ
hello_from_client =
    b'H' ∷ b'e' ∷ b'l' ∷ b'l' ∷ b'o' ∷ 32 ∷ b'f' ∷ b'r' ∷ b'o' ∷ b'm' ∷ 32 ∷ b'c' ∷ b'l' ∷ b'i'
    ∷ b'e' ∷ b'n' ∷ b't' ∷ []

-- A message of the client, and the answer, in one read. The second time the buffer is cleared by bzero, the
-- first time it is empty from the start.
pub exchange : System → ℤ → List ℕ → M (Unit {0})
exchange sys sockfd msg = do
  call (writes sockfd msg)
  answer ← receive_text sys sockfd (replicate 1024 0) 1023
  call (prints answer)

-- The client's main. inet_addr("127.0.0.1") is 127.0.0.1 in network order.
unfoldable pub client_main : ByteOrder → System → ℕ → M (Unit {0})
unfolding exchange
client_main o sys loopback = do
  sockfd ← ask sys opens
  unless_negative sockfd
  conn ← ask sys (connects sockfd (record { sin_port = htons o 8090; sin_addr = loopback }))
  if is_zero conn then pure tt else exit conn
  exchange sys sockfd hello_from_client
  exchange sys sockfd quit
  call (closes sockfd)
  exit (pos 0)
