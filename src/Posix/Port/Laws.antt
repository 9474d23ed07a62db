-- ===== src/Posix/Port/Laws.antt =====
-- A port is one number in two byte orders.
use Prim.Native.Nat.{Ordering}
use dirty_net.Prelude.{ℕ, ◌^◌, ◌<◌, ◌≡◌, refl, ap, ◌∙◌, sym, ◌↔◌, true, arith}
use dirty_net.ByteOrder.{ByteOrder, htons, ntohs}
use dirty_net.ByteOrder.Laws.{ntohs-htons, htons-ntohs, htons_lt, ntohs_lt}
use dirty_net.Text.Laws.{to_string_injective}
use dirty_net.Posix.Port.{Port, port_of, from_native, to_string, posix, port_eq, port_compare}

-- Both members hold a uint16_t, and they are the same number in the two byte orders.
pub record IsPort (o : ByteOrder) (p : Port) : Type 0 where
  pub local_lt : p.local < 2 ^ 16
  pub native_is : p.native ≡ htons o p.local

pub port_of-IsPort : (o : ByteOrder) (p : ℕ) → p < 2 ^ 16 → IsPort o (port_of o p)
unfolding port_of
port_of-IsPort o p h = record { local_lt = h; native_is = refl }

pub from_native-IsPort : (o : ByteOrder) (p : ℕ) → p < 2 ^ 16 → IsPort o (from_native o p)
unfolding from_native
from_native-IsPort o p h = record { local_lt = ntohs_lt o p; native_is = sym (htons-ntohs o p h) }

-- A port given to the system by posix() and taken back by from_native is the same port, on every host; so is a network number taken by from_native and given back.
pub from_native-posix :
    (o : ByteOrder) (p : Port) (n : ℕ)
    → IsPort o p
    → n < 2 ^ 16
    → (from_native o (posix p) ≡ p) × (posix (from_native o n) ≡ n) × IsPort o (from_native o n)
unfolding from_native posix
from_native-posix o p n v h =
    (λ i. record { native = p.native; local = same i }, refl, from_native-IsPort o n h)
  where
    same : ntohs o p.native ≡ p.local
    same = ap (ntohs o) v.native_is ∙ ntohs-htons o p.local v.local_lt

-- operator==, operator<=> and the printed form each tell two ports apart exactly when they differ.
pub port_eq_iff :
    (o : ByteOrder) (p q : Port)
    → IsPort o p
    → IsPort o q
    → ((port_eq p q ≡ true) ↔ (p ≡ q))
      × ((port_compare p q ≡ Ordering.eq) ↔ (p ≡ q))
      × ((to_string p ≡ to_string q) ↔ (p ≡ q))
unfolding port_eq port_compare to_string
port_eq_iff o p q v w = (
  (λ e. same (ground arith), λ e. ground arith),
  (λ e. same (ground arith), λ e. ground arith),
  (λ e. same (to_string_injective p.local q.local e), λ e. ap to_string e),
)
  where
    same : p.local ≡ q.local → p ≡ q
    same e =
        λ i. record { native = (v.native_is ∙ ap (htons o) e ∙ sym w.native_is) i; local = e i }

pub native_lt : (o : ByteOrder) (p : Port) → IsPort o p → p.native < 2 ^ 16
native_lt o p v = omega (arith, v.native_is, htons_lt o p.local)

-- A port is known by either of its members.
pub same_port : (o : ByteOrder) (p q : Port) → IsPort o p → IsPort o q → p.native ≡ q.native → p ≡ q
same_port o p q v w e = λ i. record { native = e i; local = same i }
  where
    same : p.local ≡ q.local
    same =
        sym (ap (ntohs o) v.native_is ∙ ntohs-htons o p.local v.local_lt)
        ∙ ap (ntohs o) e
        ∙ (ap (ntohs o) w.native_is ∙ ntohs-htons o q.local w.local_lt)
