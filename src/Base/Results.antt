-- ===== src/Base/Results.antt =====
-- A value or an error, the pair that a Go function with an `error` result returns.
use mathlib.Core.Path.{◌≡◌, refl}
use mathlib.Core.Option.{Option, none, some}
use mathlib.Core.Logic.{◌⊎◌, inl, inr}

pub data Result {ℓ κ} (E : Type κ) (A : Type ℓ) : Type (ℓ ⊔ κ) where
  ok : A → Result E A
  err : E → Result E A

infixl 5 ◌>>=◌
abbrev pub ◌>>=◌ {ℓ κ ι} :
    {E : Type ι} {A : Type ℓ} {B : Type κ} → Result E A → (A → Result E B) → Result E B
ok a >>= f = f a
err e >>= f = err e

-- `value, ok := …; if !ok { return e }`
abbrev pub or_fail {ℓ ι} : {E : Type ι} {A : Type ℓ} → Option A → E → Result E A
or_fail none e = err e
or_fail (some a) e = ok a

pub Result-cases {ℓ ι} :
    {E : Type ι} {A : Type ℓ} (r : Result E A) → ((e : E) × (r ≡ err e)) ⊎ ((a : A) × (r ≡ ok a))
Result-cases (ok a) = inr (a, refl)
Result-cases (err e) = inl (e, refl)

-- The parts of a chain that succeeded.
pub bind-ok {ℓ κ ι} :
    {E : Type ι} {A : Type ℓ} {B : Type κ} (m : Result E A) (f : A → Result E B) {b : B}
    → (m >>= f) ≡ ok b
    → (a : A) × (m ≡ ok a) × (f a ≡ ok b)
bind-ok (ok a) f h = (a, refl, h)
bind-ok (err e) f h = cc

pub ok_injective {ℓ κ} :
    {E : Type κ} {A : Type ℓ} {a b : A} → ◌≡◌ {A = Result E A} (ok a) (ok b) → a ≡ b
ok_injective h = cc
