-- ===== src/Common/Try.antt =====
-- Values or errors of one kind.
use mathlib.Core.Path.{◌≡◌, refl}
use mathlib.Core.Option.{Option, none, some}

pub data Try {ℓ} (E : Type 0) (A : Type ℓ) : Type ℓ where
  ok : A → Try E A
  err : E → Try E A

infixl 5 ◌>>=◌
abbrev pub ◌>>=◌ {ℓ κ} : {E : Type 0} {A : Type ℓ} {B : Type κ} → Try E A → (A → Try E B) → Try E B
ok a >>= f = f a
err e >>= f = err e

abbrev pub or_fail {ℓ} : {E : Type 0} {A : Type ℓ} → E → Option A → Try E A
or_fail e none = err e
or_fail e (some a) = ok a

pub bind-ok {ℓ κ} :
    {E : Type 0} {A : Type ℓ} {B : Type κ} (r : Try E A) (f : A → Try E B) (b : B)
    → r >>= f ≡ ok b
    → (a : A) × ((r ≡ ok a) × (f a ≡ ok b))
bind-ok (ok a) f b e = (a, (refl, e))
bind-ok (err x) f b e = cc
