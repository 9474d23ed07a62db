-- ===== src/UdpMany/Host/Tests.antt =====
-- The host on concrete systems.
use dirty_net.Prelude.{suc, arith, ◌≡◌, refl, [], ◌∷◌, length}
use dirty_net.Prelude.Int.{pos, negsuc}
use dirty_net.ByteOrder.{little, big}
use dirty_net.Stream.{failed}
use dirty_net.Sandbox.{System, opens, sets_option, closes, exits}
use dirty_net.UdpMany.Host.{main}
use dirty_net.UdpMany.Host.Keeps.{Closes}
use dirty_net.UdpMany.Host.Laws.{main-Closes}
use dirty_net.UdpMany.Host.Greets.{Willing, greeting_run, main-greeting_run}

-- Every call returns the number of the calls before it, and 3 more.
abbrev willing : System
willing = record {
  result = λ t c. pos (suc (suc (suc (length t))));
  input = λ t. failed;
  sender = λ t. record { sin_port = 0; sin_addr = 0 };
}

-- A system without multicast: the options are refused.
abbrev unwilling : System
unwilling = record {
  result = λ t c. elim c [ sets_option fd n ↦ negsuc 0 | _ ↦ pos (length t) ];
  input = λ t. failed;
  sender = λ t. record { sin_port = 0; sin_addr = 0 };
}

refused_option :
    main little unwilling 7 []
    ≡ exits (negsuc 0) (
        opens
        ∷ opens
        ∷ opens
        ∷ opens
        ∷ opens
        ∷ sets_option (pos 4) 33
        ∷ closes (pos 0)
        ∷ closes (pos 1)
        ∷ closes (pos 2)
        ∷ closes (pos 3)
        ∷ closes (pos 4)
        ∷ [])
unfolding main
refused_option = refl

main-Closes_example : Closes unwilling (main little unwilling 7 [])
main-Closes_example = main-Closes little unwilling 7

willing-Willing : Willing willing
willing-Willing = record { options = λ t fd n. refl; messages = λ t fd bytes to. ground arith }

whole_run : main big willing 7 [] ≡ exits (pos 0) (greeting_run big willing 7)
whole_run = main-greeting_run big willing 7 willing-Willing
