-- ===== src/UdpMany/Host/Laws.antt =====
-- The host closes what it opens, on every path, and greets all clients if nothing fails.
use dirty_net.Prelude.{
  ℕ, ◌≡◌, refl, sym, ap, ◌∙◌, List, [], ◌∷◌, ◌++◌, Bool, true, false, if◌then◌else◌,
}
use mathlib.Core.List.{map-append}
use dirty_net.Prelude.Int.{ℤ, pos, is_negative}
use dirty_net.ByteOrder.{ByteOrder, htons}
use dirty_net.Sandbox.{Address, Call, opens, sets_option, sends, System, pure}
use dirty_net.Sandbox.Laws.{opened, closed}
use dirty_net.UdpMany.Host.{
  Target, Globals, unicast_ports, cleanup, open_targets, less_than_one, set_option, send_greeting,
  greeting_for, greet_targets, hello_multicast, multicast_ttl, multicast_loop, multicast_if,
  serve_clients, with_targets, main,
}
use dirty_net.UdpMany.Host.Keeps.{
  fds, held, Keeps, and_then-Keeps, Closes, and_then-Closes, cleanup-Closes, Closes-Keeps, Quiet,
  Quiet-opened, Quiet-closed, opens-opened, opens-closed, goes_on,
}

open_targets-Keeps :
    (sys : System) (ports : List ℕ) (ts : List Target) (t : List Call)
    → opened sys [] t ≡ fds ts
    → closed t ≡ []
    → Keeps sys fds (open_targets sys ports ts t)
unfolding open_targets
open_targets-Keeps sys [] ts t o e = goes_on ts t o e
open_targets-Keeps sys (port ∷ ports) ts t o e =
    let made : Target = record {
      fd = sys.result t opens;
      address = record { sin_port = port; sin_addr = 0 };
    } in
    open_targets-Keeps sys ports (ts ++ (made ∷ [])) (t ++ (opens ∷ []))
      (opens-opened sys t
        ∙ ap (λ x. x ++ (sys.result t opens ∷ [])) o
        ∙ sym (map-append (λ x. x.fd) ts (made ∷ [])))
      (opens-closed t e)

-- A checked call, which ends in cleanup if it fails.
checked-Keeps :
    (sys : System) (g : Globals) (c : Call) (bad : Bool) (code : ℤ) (t : List Call)
    → Quiet c
    → opened sys [] t ≡ held g
    → closed t ≡ []
    → Keeps sys (λ _. held g) ((if bad then cleanup g code else pure tt) (t ++ (c ∷ [])))
checked-Keeps sys g c true code t q o e =
    Closes-Keeps sys (λ _. held g)
      (cleanup-Closes sys g code (t ++ (c ∷ [])) (Quiet-opened sys t c q ∙ o)
        (Quiet-closed t c q e))
checked-Keeps sys g c false code t q o e =
    goes_on tt (t ++ (c ∷ [])) (Quiet-opened sys t c q ∙ o) (Quiet-closed t c q e)

set_option-Keeps :
    (sys : System) (g : Globals) (option : ℕ) (t : List Call)
    → opened sys [] t ≡ held g
    → closed t ≡ []
    → Keeps sys (λ _. held g) (set_option sys g option t)
unfolding set_option
set_option-Keeps sys g option t o e =
    checked-Keeps sys g (sets_option g.multi_sockfd option)
      (is_negative (sys.result t (sets_option g.multi_sockfd option))) _ t tt o e

send_greeting-Keeps :
    (sys : System) (g : Globals) (fd : ℤ) (greeting : List ℕ) (to : Address) (t : List Call)
    → opened sys [] t ≡ held g
    → closed t ≡ []
    → Keeps sys (λ _. held g) (send_greeting sys g fd greeting to t)
unfolding send_greeting
send_greeting-Keeps sys g fd greeting to t o e =
    checked-Keeps sys g (sends fd greeting to) (less_than_one (sys.result t (sends fd greeting to)))
      _ t tt o e

greet_targets-Keeps :
    (b : ByteOrder) (sys : System) (g : Globals) (ts : List Target) (t : List Call)
    → opened sys [] t ≡ held g
    → closed t ≡ []
    → Keeps sys (λ _. held g) (greet_targets b sys g ts t)
unfolding greet_targets
greet_targets-Keeps b sys g [] t o e = goes_on tt t o e
greet_targets-Keeps b sys g (x ∷ ts) t o e =
    and_then-Keeps sys _ (send_greeting-Keeps sys g x.fd (greeting_for b x) x.address t o e)
      (λ _ u p q. greet_targets-Keeps b sys g ts u p q)

serve_clients-Closes :
    (o : ByteOrder) (sys : System) (group : ℕ) (g : Globals) (t : List Call)
    → opened sys [] t ≡ held g
    → closed t ≡ []
    → Closes sys (serve_clients o sys group g t)
unfolding serve_clients
serve_clients-Closes o sys group g t p q =
    and_then-Closes sys _ (set_option-Keeps sys g multicast_ttl t p q) (λ _ u a b.
      and_then-Closes sys _ (set_option-Keeps sys g multicast_loop u a b) (λ _ v c d.
        and_then-Closes sys _ (set_option-Keeps sys g multicast_if v c d) (λ _ w e f.
          and_then-Closes sys _ (greet_targets-Keeps o sys g g.client_targets w e f) (λ _ x h i.
            and_then-Closes sys (λ _. cleanup g (pos 0))
              (send_greeting-Keeps sys g g.multi_sockfd hello_multicast
                (record { sin_port = htons o 10000; sin_addr = group }) x h i)
              (λ _ y j k. cleanup-Closes sys g (pos 0) y j k)))))

with_targets-Closes :
    (o : ByteOrder) (sys : System) (group : ℕ) (targets : List Target) (t : List Call)
    → opened sys [] t ≡ fds targets
    → closed t ≡ []
    → Closes sys (with_targets o sys group targets t)
unfolding with_targets
with_targets-Closes o sys group targets t p q =
    let multi : ℤ = sys.result t opens in
    serve_clients-Closes o sys group (record { client_targets = targets; multi_sockfd = multi })
      (t ++ (opens ∷ [])) (opens-opened sys t ∙ ap (λ x. x ++ (multi ∷ [])) p) (opens-closed t q)

-- Whatever the calls return, the host's main ends, and on every path, the errors included, it has
-- closed exactly the results of its socket calls, each once and in the order of these calls; a result that
-- is no descriptor is closed too.
pub main-Closes : (o : ByteOrder) (sys : System) (group : ℕ) → Closes sys (main o sys group [])
unfolding main opened closed
main-Closes o sys group =
    and_then-Closes sys (with_targets o sys group)
      (open_targets-Keeps sys (unicast_ports o) [] [] refl refl)
      (λ targets t p q. with_targets-Closes o sys group targets t p q)
