-- ===== src/UdpPing/Posix/Tests.antt =====
-- The two programs over the system's calls on concrete systems.
use dirty_net.Prelude.{ℕ, ◌≡◌, refl, [], ◌∷◌, arith, replicate, length-replicate}
use dirty_net.Prelude.Int.{pos}
use dirty_net.ByteOrder.{little, htons}
use dirty_net.Text.{c_str}
use dirty_net.Memory.{write_at}
use dirty_net.Stream.{ReadResult, failed, got}
use dirty_net.Sandbox.{
  Address, System, opens, binds, receives, prints, sends, closes, exits, undefined, terminated,
}
use dirty_net.Sandbox.Receive.{Sized}
use dirty_net.UdpPing.{client_greeting, server_response}
use dirty_net.UdpPing.Posix.{client_main, server_main}
use dirty_net.UdpPing.Posix.Laws.{
  Pings, socket_call, client_calls, client_end, server_calls, server_end, mains-Pings,
}

abbrev peer : Address
peer = record { sin_port = 0x1234; sin_addr = 7 }

-- Every call gives 5, and a message comes from `peer`.
abbrev receiving : ReadResult → System
receiving r = record { result = λ t c. pos 5; input = λ t. r; sender = λ t. peer }

answers_peer :
    server_main little (receiving (got client_greeting)) (replicate 1024 7) []
    ≡ exits (pos 0) (
        opens
        ∷ binds (pos 5) (record { sin_port = htons little 8090; sin_addr = 0 })
        ∷ receives (pos 5) 1024
        ∷ prints client_greeting
        ∷ sends (pos 5) server_response peer
        ∷ closes (pos 5)
        ∷ [])
unfolding server_main terminated write_at c_str
answers_peer = refl

no_answer : client_main little (receiving failed) (replicate 1024 7) 1 [] ≡ undefined
unfolding client_main terminated
no_answer = refl

client_greeting-Sized : Sized (receiving (got client_greeting))
client_greeting-Sized t bytes e = ground arith

mains-Pings_example :
    Pings
      (receiving (got client_greeting))
      socket_call
      (client_calls little 1)
      client_end
      (client_main little (receiving (got client_greeting)) (replicate 1024 7) 1 [])
    × Pings
        (receiving (got client_greeting))
        (server_calls little)
        (server_calls little)
        (server_end little (receiving (got client_greeting)))
        (server_main little (receiving (got client_greeting)) (replicate 1024 7) [])
mains-Pings_example =
    mains-Pings little (receiving (got client_greeting)) (replicate 1024 7) 1
      (length-replicate {A = ℕ} 1024 7) client_greeting-Sized
