-- ===== src/Session/Ensures.antt =====
-- Total correctness of a part of main: it ends with a value that meets `Q`, by a return that meets
-- `R.returned`, or in undefined behaviour, if `R.wrong` holds; never for lack of fuel.
use dirty_net.Prelude.{Bool, true, false, ◌≡◌, refl}
use dirty_net.Prelude.Int.{ℤ, negsuc}
use dirty_net.Session.{Session, Exit, next, returns, undefined, and_then, M, require}

-- What is shown of a return and of undefined behaviour.
pub record Ending : Type 1 where
  pub returned : ℤ → Session → Type 0
  pub wrong : Type 0

pub data Ensures {A : Type 0} (Q : A → Session → Type 0) (R : Ending) : Exit A → Type 0 where
  gives : (a : A) (s : Session) → Q a s → Ensures Q R (next a s)
  quits : (c : ℤ) (s : Session) → R.returned c s → Ensures Q R (returns c s)
  goes_wrong : R.wrong → Ensures Q R undefined

pub and_then-Ensures :
    {A B : Type 0} {Q : A → Session → Type 0} {P : B → Session → Type 0} {R : Ending} {e : Exit A}
    (k : A → M B)
    → Ensures Q R e
    → ((a : A) (s : Session) → Q a s → Ensures P R (k a s))
    → Ensures P R (and_then e k)
and_then-Ensures k (gives a s q) f = f a s q
and_then-Ensures k (quits c s r) f = quits c s r
and_then-Ensures k (goes_wrong w) f = goes_wrong w

pub Ensures-weaken :
    {A : Type 0} {Q P : A → Session → Type 0} {R : Ending} {e : Exit A}
    → Ensures Q R e
    → ((a : A) (s : Session) → Q a s → P a s)
    → Ensures P R e
Ensures-weaken (gives a s q) f = gives a s (f a s q)
Ensures-weaken (quits c s r) f = quits c s r
Ensures-weaken (goes_wrong w) f = goes_wrong w

pub require-Ensures :
    (R : Ending) (b : Bool) (s : Session)
    → R.returned (negsuc 0) s
    → Ensures (λ _ t. (b ≡ true) × (t ≡ s)) R (require b s)
require-Ensures R true s r = gives tt s (refl, refl)
require-Ensures R false s r = quits (negsuc 0) s r
