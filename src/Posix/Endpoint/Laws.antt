-- ===== src/Posix/Endpoint/Laws.antt =====
-- Endpoints as the values that the system stores.
use dirty_net.Prelude.{
  ℕ, ◌^◌, ◌<◌, ◌≡◌, ◌↔◌, refl, ap, sym, ◌∙◌, true, false, List, done, arith, length, take, take_all,
  replicate,
}
use mathlib.Core.Path.{ap₂}
use dirty_net.ByteOrder.{ByteOrder, little, big, store16, load16, store32, load32}
use dirty_net.Memory.{same_bytes}
use dirty_net.Memory.Laws.{same_bytes-eq, same_bytes_refl, read_at-done}
use dirty_net.Posix.Port.{Port, port_of}
use dirty_net.Posix.Port
use dirty_net.Posix.Port.Laws.{IsPort, from_native-posix, native_lt, same_port}
use dirty_net.Posix.Ip.{Ipv4, v4, v6, Ipv6, ok, unexpected}
use dirty_net.Posix.Endpoint.{
  in4, in6, SockaddrIn, SockaddrIn6, unsupported_address_type, endpoint_of, get_ip, get_port,
  from_socket, addr_info, endpoint_eq, sockaddr_in_bytes, sockaddr_in_of_bytes, sockaddr_in6_bytes,
  zero_in6,
}

-- A struct whose members are in range and whose padding has its eight bytes.
pub record IsSockaddrIn (a : SockaddrIn) : Type 0 where
  pub family_lt : a.sin_family < 2 ^ 16
  pub port_lt : a.sin_port < 2 ^ 16
  pub addr_lt : a.sin_addr < 2 ^ 32
  pub padding : length a.sin_zero ≡ 8

length-bytes :
    (o : ByteOrder) (a : SockaddrIn) → IsSockaddrIn a → length (sockaddr_in_bytes o a) ≡ 16
unfolding sockaddr_in_bytes store16 store32
length-bytes little a v = omega arith
length-bytes big a v = omega arith

of_bytes-bytes :
    (o : ByteOrder) (a : SockaddrIn)
    → IsSockaddrIn a
    → sockaddr_in_of_bytes o (sockaddr_in_bytes o a) ≡ a
unfolding sockaddr_in_of_bytes sockaddr_in_bytes store16 store32 load16 load32
of_bytes-bytes little a v = ground arith
of_bytes-bytes big a v = ground arith

-- An IPv4 endpoint made of an address and a port gives both back.
pub get_ip-endpoint_of :
    (o : ByteOrder) (a : Ipv4) (p : Port)
    → IsPort o p
    → (get_ip (endpoint_of (v4 a) p) ≡ v4 a) × (get_port o (endpoint_of (v4 a) p) ≡ p)
unfolding get_ip endpoint_of get_port
get_ip-endpoint_of o a p v = (refl, (from_native-posix o p 0 v (omega arith)).0)

-- The memory and the size that addr_info gives for an IPv4 endpoint are taken back by from_socket as the same endpoint; the memory of an IPv6 one is refused as an unsupported address.
pub from_socket-addr_info :
    (o : ByteOrder) (a : SockaddrIn) (b : SockaddrIn6)
    → IsSockaddrIn a
    → (from_socket o (addr_info o (in4 a)).0 (addr_info o (in4 a)).1 ≡ done (ok (in4 a)))
      × (from_socket o (addr_info o (in6 b)).0 (addr_info o (in6 b)).1
          ≡ done (unexpected unsupported_address_type))
unfolding from_socket addr_info
from_socket-addr_info o a b v =
    let bytes : List ℕ = sockaddr_in_bytes o a in
    let whole : length bytes ≡ 16 = length-bytes o a v in
    (
      rw (read_at-done bytes 0 16 (omega (arith, whole)))
          (rw (take_all 16 bytes (omega (arith, whole))) (rw (of_bytes-bytes o a v) refl)),
      refl,
    )

-- operator== on IPv4 endpoints compares all members, the padding included.
pub in4_eq_iff :
    (o : ByteOrder) (a b : SockaddrIn)
    → IsSockaddrIn a
    → IsSockaddrIn b
    → (endpoint_eq o (in4 a) (in4 b) ≡ true) ↔ (a ≡ b)
unfolding endpoint_eq addr_info
in4_eq_iff o a b v w =
    let xs : List ℕ = sockaddr_in_bytes o a in
    let ys : List ℕ = sockaddr_in_bytes o b in
    let cut_a : take 16 xs ≡ xs = take_all 16 xs (omega (arith, length-bytes o a v)) in
    let cut_b : take 16 ys ≡ ys = take_all 16 ys (omega (arith, length-bytes o b w)) in
    (
      (λ e.
          sym (of_bytes-bytes o a v)
          ∙ ap (sockaddr_in_of_bytes o)
              (sym cut_a ∙ same_bytes-eq (take 16 xs) (take 16 ys) e ∙ cut_b)
          ∙ of_bytes-bytes o b w),
      (λ e.
          ap (λ t. same_bytes (take 16 xs) (take 16 (sockaddr_in_bytes o t))) (sym e)
          ∙ same_bytes_refl (take 16 xs)),
    )

endpoint_of-valid :
    (o : ByteOrder) (a : Ipv4) (p : Port)
    → a.s_addr < 2 ^ 32
    → IsPort o p
    → IsSockaddrIn (record {
      sin_family = 2;
      sin_port = p.native;
      sin_addr = a.s_addr;
      sin_zero = replicate 8 0;
    })
endpoint_of-valid o a p h v = record {
  family_lt = omega arith;
  port_lt = native_lt o p v;
  addr_lt = h;
  padding = refl;
}

-- Two endpoints made of addresses and ports are equal by operator== exactly when both agree, if the addresses are IPv4. An IPv4 and an IPv6 one never are, and all IPv6 ones are, whatever their addresses and ports.
pub endpoint_eq_iff :
    (o : ByteOrder) (a b : Ipv4) (c d : Ipv6) (p q : Port)
    → a.s_addr < 2 ^ 32
    → b.s_addr < 2 ^ 32
    → IsPort o p
    → IsPort o q
    → ((endpoint_eq o (endpoint_of (v4 a) p) (endpoint_of (v4 b) q) ≡ true) ↔ ((a ≡ b) × (p ≡ q)))
      × (endpoint_eq o (endpoint_of (v4 a) p) (endpoint_of (v6 d) q) ≡ false)
      × (endpoint_eq o (endpoint_of (v6 c) p) (endpoint_of (v6 d) q) ≡ true)
unfolding endpoint_of Port.posix
endpoint_eq_iff o a b c d p q ha hb v w = (
  (
    (λ e. same (
        (in4_eq_iff o (left a p) (left b q) (endpoint_of-valid o a p ha v)
            (endpoint_of-valid o b q hb w)).0
          e)),
    (λ e.
        (in4_eq_iff o (left a p) (left b q) (endpoint_of-valid o a p ha v)
            (endpoint_of-valid o b q hb w)).1
          (ap₂ left e.0 e.1)),
  ),
  (unfold endpoint_eq addr_info in refl),
  (unfold endpoint_eq addr_info in same_bytes_refl (take 28 (sockaddr_in6_bytes o zero_in6))),
)
  where
    left : Ipv4 → Port → SockaddrIn
    left i r = record {
      sin_family = 2;
      sin_port = r.native;
      sin_addr = i.s_addr;
      sin_zero = replicate 8 0;
    }

    same : left a p ≡ left b q → (a ≡ b) × (p ≡ q)
    same e = ((λ i. record { s_addr = (e i).sin_addr }), same_port o p q v w (λ i. (e i).sin_port))

-- An endpoint as the system stored it equals the one made again from its address and port exactly when its family is AF_INET and its padding is all zero.
pub endpoint_eq-remade :
    (o : ByteOrder) (a : SockaddrIn)
    → IsSockaddrIn a
    → (endpoint_eq o (in4 a) (endpoint_of (get_ip (in4 a)) (get_port o (in4 a))) ≡ true)
      ↔ ((a.sin_family ≡ 2) × (a.sin_zero ≡ replicate 8 0))
unfolding endpoint_of get_ip get_port Port.posix Port.from_native
endpoint_eq-remade o a v = (
  (λ e. ((λ i. ((iff.0 e) i).sin_family), (λ i. ((iff.0 e) i).sin_zero))),
  (λ e. iff.1 (λ i. record {
    sin_family = e.0 i;
    sin_port = a.sin_port;
    sin_addr = a.sin_addr;
    sin_zero = e.1 i;
  })),
)
  where
    remade : SockaddrIn
    remade = record {
      sin_family = 2;
      sin_port = a.sin_port;
      sin_addr = a.sin_addr;
      sin_zero = replicate 8 0;
    }

    iff : (endpoint_eq o (in4 a) (in4 remade) ≡ true) ↔ (a ≡ remade)
    iff = in4_eq_iff o a remade v (record {
      family_lt = omega arith;
      port_lt = v.port_lt;
      addr_lt = v.addr_lt;
      padding = refl;
    })
