-- ===== src/Legacy/Udp/Tests.antt =====
-- An object on an address given as a number, which is not valid.
use dirty_net.Prelude.{◌≡◌, refl, []}
use dirty_net.Prelude.Int.{pos}
use dirty_net.ByteOrder.{little}
use dirty_net.Legacy.Ip.{Ip, ipv4, ipv4_of_int, valid_ip}
use dirty_net.Legacy.Udp.{construct, destroy, program_terminated}
use dirty_net.Legacy.Udp.Laws.{Life, construct-Life}

abbrev of_number : Ip
of_number = ipv4 (ipv4_of_int 7)

number_terminates :
    destroy (construct little of_number 8090 (pos 3) (pos 0)) ≡ (program_terminated, [])
unfolding construct destroy valid_ip
number_terminates = refl

number_Life :
    Life little of_number 8090
      (pos 3)
      (pos 0)
      (destroy (construct little of_number 8090 (pos 3) (pos 0)))
number_Life = construct-Life little of_number 8090 (pos 3) (pos 0)
