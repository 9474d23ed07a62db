-- ===== src/Public/Laws.antt =====
-- What the public classes add to the native ones: the cached text.
use dirty_net.Prelude.{ℕ, zero, suc, ◌≡◌, refl, ap, ◌∙◌, none, some, List, [], ◌∷◌, ◌++◌, replicate}
use dirty_net.ByteOrder.{ByteOrder}
use dirty_net.Posix.Ip.{Inet, Ipv4, v4, Expected, ok, unexpected}
use dirty_net.Posix.Ip
use dirty_net.Posix.Port.Laws.{IsPort}
use dirty_net.Posix.Port
use dirty_net.Posix.Endpoint.{
  in4, SockaddrIn, sockaddr_in_bytes, addr_info, endpoint_of, get_ip, get_port,
}
use dirty_net.Posix.Endpoint
use dirty_net.Posix.Endpoint.Laws.{get_ip-endpoint_of}
use dirty_net.Public.Port.{PublicPort}
use dirty_net.Public.Endpoint.{PublicEndpoint, public_endpoint, endpoint_to_string}

-- The texts of `n` calls of to_string, one after another on the same object.
pub texts : ByteOrder → Inet → ℕ → PublicEndpoint → List (List ℕ)
texts o inet zero e = []
texts o inet (suc n) e =
    let (text, after) = endpoint_to_string o inet e in text ∷ texts o inet n after

texts_filled :
    (o : ByteOrder) (inet : Inet) (n : ℕ) (e : Endpoint.Endpoint) (text : List ℕ)
    → texts o inet n (record { native_endpoint = e; str_cache = some text }) ≡ replicate n text
unfolding texts endpoint_to_string
texts_filled o inet zero e text = refl
texts_filled o inet (suc n) e text = ap (λ t. text ∷ t) (texts_filled o inet n e text)

texts_empty :
    (o : ByteOrder) (inet : Inet) (n : ℕ) (e : Endpoint.Endpoint)
    → texts o inet n (record { native_endpoint = e; str_cache = none })
      ≡ replicate n (Endpoint.to_string o inet e)
unfolding texts endpoint_to_string
texts_empty o inet zero e = refl
texts_empty o inet (suc n) e =
    ap (λ t. Endpoint.to_string o inet e ∷ t)
      (texts_filled o inet n e (Endpoint.to_string o inet e))

-- However often to_string is called on an endpoint made of an IPv4 address and a port whose native form is
-- its local form in network order, every call gives the address's text, a colon and the port's text,
-- whether from the cache or not.
pub texts-public_endpoint :
    (o : ByteOrder) (inet : Inet) (n : ℕ) (a : Ipv4) (p : PublicPort)
    → IsPort o p.native_port
    → texts o inet n (public_endpoint (record { native_ip = v4 a }) p)
      ≡ replicate n (Ip.to_string inet (v4 a) ++ (b':' ∷ Port.to_string p.native_port))
unfolding public_endpoint Endpoint.to_string
texts-public_endpoint o inet n a p v =
    let e : PublicEndpoint = record {
      native_endpoint = endpoint_of (v4 a) p.native_port;
      str_cache = none;
    } in
    let parts = get_ip-endpoint_of o a p.native_port v in
    texts_empty o inet n e.native_endpoint
    ∙ ap
        (λ i.
          replicate n
            (Ip.to_string inet i ++ (b':' ∷ Port.to_string (get_port o e.native_endpoint))))
        parts.0
    ∙ ap (λ q. replicate n (Ip.to_string inet (v4 a) ++ (b':' ∷ Port.to_string q))) parts.1
