-- ===== src/UdpMany/Delivery/Tests.antt =====
-- A client on port 9001, which is the second of the host's.
use dirty_net.Prelude.{ℕ, suc, ◌≡◌, refl, [], ◌∷◌, ◌++◌, arith, length, replicate, length-replicate}
use dirty_net.Prelude.Int.{pos}
use dirty_net.ByteOrder.{little, htons, ntohs}
use dirty_net.Text.{to_string}
use dirty_net.Stream.{failed, got}
use dirty_net.Sandbox.{System, opens, sets_option, binds, receives, prints, closes, exits}
use dirty_net.Sandbox.Receive.{Succeed}
use dirty_net.UdpMany.Clients.{any_address, unicast_main, multicast_main, reuseaddr, add_membership}
use dirty_net.UdpMany.Host.{hello_to_port, hello_multicast}
use dirty_net.UdpMany.Host
use dirty_net.UdpMany.Host.Greets.{Willing, greeting_run}
use dirty_net.UdpMany.Delivery.{unicast_main-main}
use dirty_net.UdpMany.Delivery.Multicast.{multicast_main-main}

abbrev host : System
host = record {
  result = λ t c. pos (suc (length t));
  input = λ t. failed;
  sender = λ t. record { sin_port = 0; sin_addr = 0 };
}

abbrev client : System
client = record {
  result = λ t c. pos 5;
  input = λ t. got (hello_to_port ++ to_string 9001);
  sender = λ t. record { sin_port = 0; sin_addr = 0 };
}

host-Willing : Willing host
host-Willing = record { options = λ t fd n. refl; messages = λ t fd bytes to. ground arith }

unicast_main-main_example :
    (Host.main little host 7 [] ≡ exits (pos 0) (greeting_run little host 7))
    × (unicast_main little client (replicate 1024 7) ((b'c' ∷ []) ∷ to_string 9001 ∷ []) []
        ≡ exits (pos 0) (
            opens
            ∷ binds (pos 5) (any_address (htons little 9001))
            ∷ receives (pos 5) 1024
            ∷ prints (hello_to_port ++ to_string 9001)
            ∷ closes (pos 5)
            ∷ []))
unfolding Succeed Host.main htons ntohs
unicast_main-main_example =
    unicast_main-main little host client 7 9001 (replicate 1024 7) (b'c' ∷ [])
      (hello_to_port ++ to_string 9001) [] [] host-Willing (omega arith) (omega arith)
      (length-replicate {A = ℕ} 1024 7) (refl, (refl, tt)) refl refl

abbrev group_client : System
group_client = record {
  result = λ t c. pos 5;
  input = λ t. got hello_multicast;
  sender = λ t. record { sin_port = 0; sin_addr = 0 };
}

multicast_main-main_example :
    multicast_main little group_client (replicate 1024 7) ((b'c' ∷ []) ∷ to_string 10000 ∷ []) []
    ≡ exits (pos 0) (
        opens
        ∷ sets_option (pos 5) reuseaddr
        ∷ binds (pos 5) (any_address (htons little 10000))
        ∷ sets_option (pos 5) add_membership
        ∷ receives (pos 5) 1024
        ∷ prints hello_multicast
        ∷ closes (pos 5)
        ∷ [])
unfolding Succeed Host.main htons
multicast_main-main_example =
    multicast_main-main little host group_client 7 (replicate 1024 7) (b'c' ∷ []) hello_multicast []
      [] host-Willing (length-replicate {A = ℕ} 1024 7) (refl, (refl, (refl, (refl, tt)))) refl refl
