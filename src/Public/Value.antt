-- ===== src/Public/Value.antt =====
-- Public endpoints as values: operator== and to_string do not see the cached text.
use dirty_net.Prelude.{ℕ, ◌≡◌, ◌↔◌, refl, sym, ap, ◌∙◌, true, none, some, List}
use mathlib.Core.Equiv.{Iso, IsEquiv, iso_to_equiv}
use mathlib.Core.HLevel.{Σ_prop_path}
use mathlib.Core.Quot
use mathlib.Core.Quot.{Quot, Quot-set}
use native.Mathlib.Bridge.{le_prop}
use native.Mathlib.Nat.{ℕ_set}
use dirty_net.ByteOrder.{ByteOrder}
use dirty_net.Posix.Ip.{Inet}
use dirty_net.Posix.Endpoint.{SockaddrIn, in4, to_string}
use dirty_net.Posix.Endpoint.Laws.{IsSockaddrIn, in4_eq_iff}
use dirty_net.Public.Endpoint.{
  PublicEndpoint, endpoint_from_native, endpoint_to_string, public_endpoint_eq,
}

-- The cache is empty, or holds the text of the endpoint.
pub data IsCoherent (o : ByteOrder) (inet : Inet) (e : PublicEndpoint) : Type 0 where
  not_cached : e.str_cache ≡ none → IsCoherent o inet e
  cached : e.str_cache ≡ some (to_string o inet e.native_endpoint) → IsCoherent o inet e

-- An IPv4 endpoint, as an object of the public class.
pub record Ipv4Endpoint (o : ByteOrder) (inet : Inet) : Type 0 where
  pub object : PublicEndpoint
  pub struct : SockaddrIn
  pub is_struct : object.native_endpoint ≡ in4 struct
  pub valid : IsSockaddrIn struct
  pub coherent : IsCoherent o inet object

abbrev pub ValidStruct : Type 0
ValidStruct = (a : SockaddrIn) × IsSockaddrIn a

IsSockaddrIn-prop : (a : SockaddrIn) → IsProp (IsSockaddrIn a)
IsSockaddrIn-prop a = hlevel (le_prop, ℕ_set)

ValidStruct-set : IsSet ValidStruct
ValidStruct-set = hlevel (le_prop, ℕ_set)

bytes-set : IsSet (List ℕ)
bytes-set = hlevel ℕ_set

module _ (o : ByteOrder) (inet : Inet) where
  -- operator== of the class
  abbrev pub SameEndpoint : Ipv4Endpoint o inet → Ipv4Endpoint o inet → Type 0
  SameEndpoint a b = public_endpoint_eq o a.object b.object ≡ true

  -- Endpoints up to operator==
  abbrev pub EndpointValue : Type 0
  EndpointValue = Quot SameEndpoint

  SameEndpoint-struct : (a b : Ipv4Endpoint o inet) → SameEndpoint a b ↔ (a.struct ≡ b.struct)
  unfolding public_endpoint_eq
  SameEndpoint-struct a b =
      rw (a.is_struct, b.is_struct) (in4_eq_iff o a.struct b.struct a.valid b.valid)

  text_of :
      (e : Ipv4Endpoint o inet)
      → IsCoherent o inet e.object
      → (endpoint_to_string o inet e.object).0 ≡ to_string o inet (in4 e.struct)
  unfolding endpoint_to_string
  text_of e (not_cached n) = rw (n, e.is_struct) refl
  text_of e (cached n) = rw (n, e.is_struct) refl

  pub struct_of : EndpointValue → ValidStruct
  struct_of =
      Quot.lift ValidStruct-set (λ e. (e.struct, e.valid))
        (λ a b h. Σ_prop_path IsSockaddrIn-prop ((SameEndpoint-struct a b).0 h))

  -- endpoint_native_access::from_native
  made_of : ValidStruct → Ipv4Endpoint o inet
  made_of (a, v) = record {
    object = endpoint_from_native (in4 a);
    struct = a;
    is_struct = refl;
    valid = v;
    coherent = not_cached refl;
  }

  -- to_string, which does not depend on the object that stands for the value
  pub value_text : EndpointValue → List ℕ
  value_text =
      Quot.lift bytes-set (λ e. (endpoint_to_string o inet e.object).0)
        (λ a b h.
          text_of a a.coherent
          ∙ ap (λ s. to_string o inet (in4 s)) ((SameEndpoint-struct a b).0 h)
          ∙ sym (text_of b b.coherent))

  values : Iso EndpointValue ValidStruct
  unfolding struct_of made_of
  values = record {
    fun = struct_of;
    inv = λ a. Quot.mk (made_of a);
    rinv = λ a. refl;
    linv =
        Quot.ind (λ q. Quot-set _ _)
          (λ e. Quot.sound ((SameEndpoint-struct (made_of (e.struct, e.valid)) e).1 refl));
  }

  same_value :
      (a b : Ipv4Endpoint o inet)
      → (◌≡◌ {A = EndpointValue} (Quot.mk a) (Quot.mk b))
        ↔ (public_endpoint_eq o a.object b.object ≡ true)
  unfolding struct_of
  same_value a b =
      ((λ e. (SameEndpoint-struct a b).1 (ap (λ q. (struct_of q).0) e)), (λ e. Quot.sound e))

  -- For the public IPv4 endpoints whose cache is empty or holds their own text, operator== is an equality: in the
  -- quotient by it two endpoints are one value exactly if operator== holds of them. The text that to_string gives, cached
  -- or not, is that of the native endpoint, and depends on the value only. And these values are the valid sockaddr_in structs: the
  -- map to the struct is an equivalence of types.
  pub endpoint_values :
      (a b : Ipv4Endpoint o inet)
      → ((◌≡◌ {A = EndpointValue} (Quot.mk a) (Quot.mk b))
          ↔ (public_endpoint_eq o a.object b.object ≡ true))
        × (value_text (Quot.mk a) ≡ (endpoint_to_string o inet a.object).0)
        × ((endpoint_to_string o inet a.object).0 ≡ to_string o inet a.object.native_endpoint)
        × IsEquiv struct_of
  unfolding value_text struct_of values
  endpoint_values a b = (
    same_value a b,
    refl,
    text_of a a.coherent ∙ ap (to_string o inet) (sym a.is_struct),
    (iso_to_equiv values).1,
  )
