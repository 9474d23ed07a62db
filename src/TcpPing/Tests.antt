-- ===== src/TcpPing/Tests.antt =====
-- The server and the client of tcp-ping on concrete systems.
use dirty_net.Prelude.{ℕ, zero, suc, ◌+◌, ◌≤◌, ◌≡◌, refl, List, [], ◌∷◌, ◌++◌, arith}
use dirty_net.Prelude.Int.{pos}
use dirty_net.ByteOrder.{little, htons}
use dirty_net.Text.{c_str}
use dirty_net.Stream.{ReadResult, failed, got}
use dirty_net.Sandbox.{Call, opens, binds, listens, accepts, receives, closes, System, exits}
use dirty_net.TcpPing.{
  response_to, quit, hello_from_client, accept_client, ended, running, undefined_behaviour,
  server_main, client_main,
}
use dirty_net.TcpPing.Laws.{
  Feeds, IsQuit, first_blocks, round_calls, transcript, server_main-ended, server_main-running,
  server_main-undefined,
}
use dirty_net.TcpPing.Conversation.{Answered, conversation, written, printed, hello_IsQuit}

-- The number of reads in a run, and what such a number of reads leaves of the answers.
read_by : Call → ℕ
read_by (receives fd size) = 1
read_by _ = 0

reads : List Call → ℕ
unfolding read_by
reads [] = 0
reads (c ∷ cs) = read_by c + reads cs

answer_at : List ReadResult → ReadResult → ℕ → ReadResult
answer_at [] behind n = behind
answer_at (r ∷ rs) behind zero = r
answer_at (r ∷ rs) behind (suc n) = answer_at rs behind n

-- A system whose sockets are 3 and 4, and whose reads give `answers`, and `behind` from then on.
abbrev reading : List ReadResult → ReadResult → System
reading answers behind = record {
  result = λ t c. elim c [ opens ↦ pos 3 | accepts fd ↦ pos 4 | _ ↦ pos 0 ];
  input = λ t. answer_at answers behind (reads t);
  sender = λ t. record { sin_port = 0; sin_addr = 0 };
}

abbrev connected : List Call
connected =
    opens
    ∷ binds (pos 3) (record { sin_port = htons little 8090; sin_addr = 0 })
    ∷ listens (pos 3)
    ∷ accepts (pos 3)
    ∷ []

abbrev polite : System
polite = reading (got hello_from_client ∷ got quit ∷ []) failed

abbrev answering : System
answering = reading (got (response_to hello_from_client) ∷ got (response_to quit) ∷ []) failed

-- One letter, and nothing from then on
abbrev letter : List ℕ
letter = b'a' ∷ []

abbrev gone : System
gone = reading (got letter ∷ []) (got [])

server_main-ended_example :
    server_main little polite 2
    ≡ ended (pos 0) (
        ((connected ++ transcript (pos 4) (hello_from_client ∷ [])) ++ round_calls (pos 4) quit)
        ++ (closes (pos 3) ∷ []))
unfolding reads accept_client answer_at transcript c_str
server_main-ended_example =
    server_main-ended little polite 2 (pos 4) connected (hello_from_client ∷ []) quit refl
      (refl, omega arith, tt) (hello_IsQuit, tt) (refl, omega arith, tt) refl (omega arith)

reads-append : (t u : List Call) → reads (t ++ u) ≡ reads t + reads u
unfolding reads
reads-append [] u = omega arith
reads-append (c ∷ t) u = omega (arith, reads-append t u)

answer_at_behind : (r behind : ReadResult) (n : ℕ) → 1 ≤ n → answer_at (r ∷ []) behind n ≡ behind
unfolding answer_at
answer_at_behind r behind zero h = absurd (omega (arith, h))
answer_at_behind r behind (suc n) h = refl

-- The blocks that the reads of `gone` give
one_letter : ℕ → List ℕ
one_letter zero = letter
one_letter (suc i) = []

gone-Feeds :
    (k : ℕ) (t : List Call)
    → 1 ≤ reads t
    → Feeds gone (pos 4) t (first_blocks k (λ i. one_letter (suc i)))
unfolding reads one_letter
gone-Feeds zero t h = tt
gone-Feeds (suc k) t h = (
  answer_at_behind (got letter) (got []) (reads t) h,
  omega arith,
  gone-Feeds k (t ++ round_calls (pos 4) [])
      (omega (arith, h, reads-append t (round_calls (pos 4) []))),
)

all_Feeds : (k : ℕ) → Feeds gone (pos 4) connected (first_blocks k one_letter)
unfolding reads answer_at one_letter
all_Feeds zero = tt
all_Feeds (suc k) = (refl, omega arith, gone-Feeds k _ (omega arith))

one_letter-IsQuit : (i : ℕ) → ¬ IsQuit (one_letter i)
unfolding one_letter c_str
one_letter-IsQuit zero e = cc
one_letter-IsQuit (suc i) e = cc

server_main-running_example :
    server_main little gone 5
    ≡ running (connected ++ transcript (pos 4) (first_blocks 5 one_letter))
unfolding reads accept_client answer_at
server_main-running_example =
    server_main-running little gone 5 (pos 4) connected one_letter refl all_Feeds one_letter-IsQuit

-- The first read fails.
abbrev broken : System
broken = reading [] failed

broken_read : server_main little broken 1 ≡ undefined_behaviour
unfolding reads accept_client answer_at transcript
broken_read =
    server_main-undefined little broken 1 (pos 4) connected [] refl tt tt refl (omega arith)

-- 127.0.0.1 in network order on a little-endian host
abbrev loopback : ℕ
loopback = 0x0100007f

answering-Answered :
    Answered little answering loopback (response_to hello_from_client) (response_to quit)
unfolding reads answer_at
answering-Answered = record { socket = refl; connection = refl; first = refl; second = refl }

conversation_example :
    (run served : List Call) × (client_main little answering loopback [] ≡ exits (pos 0) run)
    × (written run ≡ hello_from_client ∷ quit ∷ [])
    × (server_main little polite 2 ≡ ended (pos 0) ((connected ++ served) ++ (closes (pos 3) ∷ [])))
    × (written served ≡ response_to hello_from_client ∷ response_to quit ∷ [])
    × (printed run ≡ written served)
unfolding reads accept_client answer_at c_str
conversation_example =
    conversation little answering polite loopback 2 (pos 4) connected refl
      (refl, omega arith, (refl, omega arith, tt)) answering-Answered (omega arith)
