-- ===== src/UdpMany/Host/Keeps.antt =====
-- Which descriptors a part of the host's main leaves open.
use dirty_net.Prelude.{
  ◌≡◌, refl, sym, ap, subst, ◌∙◌, List, [], ◌∷◌, ◌++◌, map, append_assoc, append-nil,
}
use mathlib.Core.List.{map-append}
use dirty_net.Prelude.Int.{ℤ}
use dirty_net.Sandbox.{
  Call, opens, closes, System, Step, next, exits, and_then, M, ◌>>◌, exit, call,
}
use dirty_net.Sandbox.Laws.{opened, closed, opened-append, closed-append}
use dirty_net.UdpMany.Host.{Target, Globals, close_targets, cleanup}

-- The descriptors that cleanup closes.
abbrev pub fds : List Target → List ℤ
fds ts = map (λ t. t.fd) ts

abbrev pub held : Globals → List ℤ
held g = fds g.client_targets ++ (g.multi_sockfd ∷ [])

-- So far the sockets `kept` were opened, and none was closed; or main has ended, with all closed.
pub data Keeps (sys : System) {A : Type 0} (kept : A → List ℤ) : Step A → Type 0 where
  goes_on :
      (a : A) (t : List Call) → opened sys [] t ≡ kept a → closed t ≡ [] → Keeps sys kept (next a t)
  ends : (c : ℤ) (t : List Call) → closed t ≡ opened sys [] t → Keeps sys kept (exits c t)

pub and_then-Keeps :
    {A B : Type 0} (sys : System) {kept : A → List ℤ} {kept' : B → List ℤ} {e : Step A}
    (k : A → M B)
    → Keeps sys kept e
    → ((a : A) (t : List Call) → opened sys [] t ≡ kept a → closed t ≡ [] → Keeps sys kept' (k a t))
    → Keeps sys kept' (and_then e k)
and_then-Keeps sys k (goes_on a t o c) f = f a t o c
and_then-Keeps sys k (ends c t e) f = ends c t e

pub close_targets_lem :
    (ts : List Target) (t : List Call) → close_targets ts t ≡ next tt (t ++ map closes (fds ts))
unfolding close_targets
close_targets_lem [] t = ap (next tt) (sym (append-nil t))
close_targets_lem (x ∷ ts) t =
    close_targets_lem ts (t ++ (closes x.fd ∷ []))
    ∙ ap (next tt) (append_assoc t (closes x.fd ∷ []) (map closes (fds ts)))

pub closed-map : (xs : List ℤ) → closed (map closes xs) ≡ xs
unfolding closed
closed-map [] = refl
closed-map (x ∷ xs) = ap (λ t. x ∷ t) (closed-map xs)

pub opened_closes : (sys : System) (t : List Call) (xs : List ℤ) → opened sys t (map closes xs) ≡ []
unfolding opened
opened_closes sys t [] = refl
opened_closes sys t (x ∷ xs) = opened_closes sys (t ++ (closes x ∷ [])) xs

-- cleanup from such a point on closes exactly what was opened.
pub cleanup_lem :
    (g : Globals) (c : ℤ) (t : List Call) → cleanup g c t ≡ exits c (t ++ map closes (held g))
unfolding cleanup
cleanup_lem g c t =
    ap (λ e. and_then e (λ _. call (closes g.multi_sockfd) >> exit c))
      (close_targets_lem g.client_targets t)
    ∙ ap (exits c) (
        append_assoc t (map closes (fds g.client_targets)) (closes g.multi_sockfd ∷ [])
        ∙ ap (λ x. t ++ x) (sym (map-append closes (fds g.client_targets) (g.multi_sockfd ∷ []))))

-- main has ended, and the descriptors that it has closed are those that it has opened, in the same order.
pub data Closes (sys : System) {A : Type 0} : Step A → Type 0 where
  ended : (c : ℤ) (t : List Call) → closed t ≡ opened sys [] t → Closes sys (exits c t)

pub and_then-Closes :
    {A B : Type 0} (sys : System) {kept : A → List ℤ} {e : Step A} (k : A → M B)
    → Keeps sys kept e
    → ((a : A) (t : List Call) → opened sys [] t ≡ kept a → closed t ≡ [] → Closes sys (k a t))
    → Closes sys (and_then e k)
and_then-Closes sys k (goes_on a t o c) f = f a t o c
and_then-Closes sys k (ends c t e) f = ended c t e

pub cleanup-Closes :
    (sys : System) (g : Globals) (c : ℤ) (t : List Call)
    → opened sys [] t ≡ held g
    → closed t ≡ []
    → Closes sys (cleanup g c t)
cleanup-Closes sys g c t o e = subst (Closes sys) (sym (cleanup_lem g c t)) (
    ended c (t ++ map closes (held g)) (
      closed-append t (map closes (held g))
      ∙ ap (λ x. x ++ closed (map closes (held g))) e
      ∙ closed-map (held g)
      ∙ sym (
          opened-append sys [] t (map closes (held g))
          ∙ ap (λ x. opened sys [] t ++ x) (opened_closes sys t (held g))
          ∙ append-nil (opened sys [] t)
          ∙ o)))

pub Closes-Keeps :
    {A : Type 0} (sys : System) (kept : A → List ℤ) {e : Step A} → Closes sys e → Keeps sys kept e
Closes-Keeps sys kept (ended c t e) = ends c t e

-- A call that is neither socket nor close.
abbrev pub Quiet : Call → Type 0
Quiet opens = ⊥
Quiet (closes _) = ⊥
Quiet _ = Unit {0}

pub Quiet-opened :
    (sys : System) (t : List Call) (c : Call)
    → Quiet c
    → opened sys [] (t ++ (c ∷ [])) ≡ opened sys [] t
unfolding opened
Quiet-opened sys t opens q = absurd q
Quiet-opened sys t (closes fd) q = absurd q
Quiet-opened sys t c q = opened-append sys [] t (c ∷ []) ∙ append-nil _

pub Quiet-closed :
    (t : List Call) (c : Call) → Quiet c → closed t ≡ [] → closed (t ++ (c ∷ [])) ≡ []
unfolding closed
Quiet-closed t opens q e = absurd q
Quiet-closed t (closes fd) q e = absurd q
Quiet-closed t c q e = closed-append t (c ∷ []) ∙ append-nil _ ∙ e

pub opens-opened :
    (sys : System) (t : List Call)
    → opened sys [] (t ++ (opens ∷ [])) ≡ opened sys [] t ++ (sys.result t opens ∷ [])
unfolding opened
opens-opened sys t = opened-append sys [] t (opens ∷ [])

pub opens-closed : (t : List Call) → closed t ≡ [] → closed (t ++ (opens ∷ [])) ≡ []
unfolding closed
opens-closed t e = closed-append t (opens ∷ []) ∙ append-nil _ ∙ e
