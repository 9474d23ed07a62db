-- ===== src/Posix/Ip/Laws.antt =====
-- Addresses as values.
use dirty_net.Prelude.{◌≡◌, refl, ◌↔◌, true, [], ◌∷◌, arith}
use dirty_net.ByteOrder.{ByteOrder, little, big, store32}
use dirty_net.Posix.Ip.{Ip, v4, v6, ipv6, ip_eq, ipv4_localhost}

-- operator== holds exactly for equal addresses. (All ipv6 objects are equal: the class has no member.)
pub ip_eq_iff : (a b : Ip) → (ip_eq a b ≡ true) ↔ (a ≡ b)
unfolding ip_eq
ip_eq_iff (v4 a) (v4 b) = (λ e. ground arith, λ e. ground arith)
ip_eq_iff (v4 a) (v6 ipv6) = (λ e. cc, λ e. cc)
ip_eq_iff (v6 ipv6) (v4 b) = (λ e. cc, λ e. cc)
ip_eq_iff (v6 ipv6) (v6 ipv6) = (λ e. refl, λ e. refl)

-- On every host localhost is 127.0.0.1 in network order.
pub store32-localhost : (o : ByteOrder) → store32 o (ipv4_localhost o).s_addr ≡ 127 ∷ 0 ∷ 0 ∷ 1 ∷ []
unfolding ipv4_localhost store32
store32-localhost little = refl
store32-localhost big = refl
