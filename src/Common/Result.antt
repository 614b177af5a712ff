-- ===== src/Common/Result.antt =====
-- The two results of a function that returns a value and an error.
use mathlib.Core.Path.{subst}
use rfguard.Common.Tests.{◌≡◌}

pub data Outcome {ℓ} (E A : Type ℓ) : Type ℓ where
  ok : A → Outcome E A
  err : E → Outcome E A

infixl 5 ◌>>=◌
abbrev pub ◌>>=◌ {ℓ} : {E A B : Type ℓ} → Outcome E A → (A → Outcome E B) → Outcome E B
ok a >>= f = f a
err e >>= f = err e

-- The value, if there is one, has a property.
abbrev pub Ensures {ℓ ℓ'} : {E A : Type ℓ} → (A → Type ℓ') → Outcome E A → Type ℓ'
Ensures P (ok a) = P a
Ensures P (err e) = Unit

pub bind-Ensures {ℓ ℓ' ℓ''} :
    {E A B : Type ℓ} (P : A → Type ℓ') (Q : B → Type ℓ'') (m : Outcome E A) (f : A → Outcome E B)
    → Ensures P m
    → ((a : A) → P a → Ensures Q (f a))
    → Ensures Q (m >>= f)
bind-Ensures P Q (ok a) f p h = h a p
bind-Ensures P Q (err e) f p h = tt

pub bind_any-Ensures {ℓ ℓ'} :
    {E A B : Type ℓ} (Q : B → Type ℓ') (m : Outcome E A) (f : A → Outcome E B)
    → ((a : A) → Ensures Q (f a))
    → Ensures Q (m >>= f)
bind_any-Ensures Q (ok a) f h = h a
bind_any-Ensures Q (err e) f h = tt

pub Ensures_of_ok {ℓ ℓ'} :
    {E A : Type ℓ} (P : A → Type ℓ') (m : Outcome E A) (a : A) → Ensures P m → m ≡ ok a → P a
Ensures_of_ok P m a p e = subst (Ensures P) e p
