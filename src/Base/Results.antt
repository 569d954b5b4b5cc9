-- ===== src/Base/Results.antt =====
-- A value or an error, as a Go function returns them.
use mathlib.Core.Path.{◌≡◌, refl, ap}

pub data Result {ℓ κ} (E : Type κ) (A : Type ℓ) : Type (ℓ ⊔ κ) where
  ok : A → Result E A
  err : E → Result E A

infixl 5 ◌>>=◌
abbrev pub ◌>>=◌ {ℓ κ μ} :
    {E : Type κ} {A : Type ℓ} {B : Type μ} → Result E A → (A → Result E B) → Result E B
ok a >>= f = f a
err e >>= f = err e

-- What a chain of two steps that succeeds has been through.
pub >>=-eq-ok {ℓ κ μ} :
    {Err : Type κ} {X : Type ℓ} {Y : Type μ} (first : Result Err X) (next : X → Result Err Y)
    {y : Y}
    → (first >>= next) ≡ ok y
    → (x : X) × (first ≡ ok x) × (next x ≡ ok y)
>>=-eq-ok (err failed) next same = cc
>>=-eq-ok (ok x) next same = (x, refl, same)

-- A chain whose first step succeeds is its second step.
pub >>=-ok {ℓ κ μ} :
    {Err : Type κ} {X : Type ℓ} {Y : Type μ} {first : Result Err X} (next : X → Result Err Y)
    {x : X}
    → first ≡ ok x
    → (first >>= next) ≡ next x
>>=-ok next e = ap (λ r. r >>= next) e

pub >>=-assoc {ℓ κ μ ν} :
    {Err : Type κ} {X : Type ℓ} {Y : Type μ} {Z : Type ν} (first : Result Err X)
    (next : X → Result Err Y) (final : Y → Result Err Z)
    → (first >>= next >>= final) ≡ (first >>= (λ x. next x >>= final))
>>=-assoc (ok x) next final = refl
>>=-assoc (err e) next final = refl
