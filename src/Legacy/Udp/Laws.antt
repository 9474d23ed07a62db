-- ===== src/Legacy/Udp/Laws.antt =====
-- The life of a udp object.
use dirty_net.Prelude.{ℕ, ◌≡◌, ◌⊎◌, inl, inr, refl, ◌∷◌, true, false, Bool-cases, List, []}
use dirty_net.Prelude.Int.{ℤ}
use dirty_net.ByteOrder.{ByteOrder}
use dirty_net.Sandbox.{Call, opens, binds}
use dirty_net.Legacy.Ip.{Held, Ip, ipv4, ipv6, valid_ip}
use dirty_net.Legacy.Udp.{
  is_minus_one, address_of, construct, Destroyed, joined, program_terminated, destroy,
}

-- How the life of an object ends, from its construction to its destructor, by the calls made.
pub data Life (o : ByteOrder) (i : Ip) (port : ℕ) (sock bound : ℤ)
    : Destroyed × List Call → Type 0 where
  was_bound :
      (h : Held ℕ)
      → i ≡ ipv4 h
      → h.valid ≡ true
      → is_minus_one bound ≡ false
      → Life o i port sock bound (joined, opens ∷ binds sock (address_of o h.addr port) ∷ [])
  not_bound :
      (h : Held ℕ)
      → i ≡ ipv4 h
      → h.valid ≡ true
      → is_minus_one bound ≡ true
      → Life o i port sock bound
          (program_terminated, opens ∷ binds sock (address_of o h.addr port) ∷ [])
  not_opened :
      (valid_ip i ≡ false) ⊎ ((h : Held (List ℕ)) × (i ≡ ipv6 h))
      → Life o i port sock bound (program_terminated, [])

-- The destructor of a udp object joins its thread if the object was made of a valid IPv4 address and bind succeeded. In
-- every other case, an address that is not valid, an IPv6 address or a bind that fails, it ends the program. From the
-- construction to the end a socket is opened and bound at most, and not closed.
pub construct-Life :
    (o : ByteOrder) (i : Ip) (port : ℕ) (sock bound : ℤ)
    → Life o i port sock bound (destroy (construct o i port sock bound))
unfolding construct destroy valid_ip
construct-Life o (ipv4 h) port sock bound = elim (Bool-cases h.valid) [
  | inr e ↦ simp e (not_opened (inl e))
  | inl e ↦ elim (Bool-cases (is_minus_one bound)) [
    | inl f ↦ simp (e, f) (not_bound h refl e f)
    | inr f ↦ simp (e, f) (was_bound h refl e f)
  ]
]
construct-Life o (ipv6 h) port sock bound = elim (Bool-cases h.valid) [
  | inl e ↦ simp e (not_opened (inr (h, refl)))
  | inr e ↦ simp e (not_opened (inl e))
]
