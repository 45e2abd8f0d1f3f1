-- ===== src/Common/Options.antt =====
-- Chains of steps of which each may come to nothing.
use mathlib.Core.Path.{◌≡◌, refl}
use mathlib.Core.Option.{Option, none, some}

infixl 5 ◌>>=◌
abbrev pub ◌>>=◌ {ℓ κ} : {A : Type ℓ} {B : Type κ} → Option A → (A → Option B) → Option B
none >>= f = none
some x >>= f = f x

-- A chain that comes to something has gone through its first step.
pub bind-some {ℓ κ} :
    {A : Type ℓ} {B : Type κ} (m : Option A) (f : A → Option B) {y : B}
    → (m >>= f) ≡ some y
    → (x : A) × ((m ≡ some x) × (f x ≡ some y))
bind-some none f q = absurd (cc)
bind-some (some x) f q = (x, (refl, q))
