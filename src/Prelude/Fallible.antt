-- ===== src/Prelude/Fallible.antt =====
-- A Go function that returns `(T, error)`: the value, or the error.
use mathlib.Core.Path.{◌≡◌, refl}
use mathlib.Core.Logic.{◌⊎◌, inl, inr}
use mathlib.Core.Bool.{Bool, true, false, ◌&&◌}

pub data Result {ℓ κ} (E : Type ℓ) (A : Type κ) : Type (ℓ ⊔ κ) where
  ok : A → Result E A
  err : E → Result E A

-- `x, err := m; if err != nil { return err }` and the rest of the body.
infixl 5 ◌>>=◌
abbrev pub ◌>>=◌ {ℓ κ μ} :
    {E : Type ℓ} {A : Type κ} {B : Type μ} → Result E A → (A → Result E B) → Result E B
ok a >>= f = f a
err e >>= f = err e

-- A function that returned without an error got a value from its first part, and the rest of the body
-- returned without an error on that value.
pub >>=-eq-ok {ℓ κ μ} :
    {E : Type ℓ} {A : Type κ} {B : Type μ} (first : Result E A) (rest : A → Result E B)
    {returned : B}
    → (first >>= rest) ≡ ok returned
    → (value : A) × (first ≡ ok value) × (rest value ≡ ok returned)
>>=-eq-ok (ok value) rest e = (value, refl, e)
>>=-eq-ok (err _) rest e = cc

abbrev pub is_ok {ℓ κ} : {E : Type ℓ} {A : Type κ} → Result E A → Bool
is_ok (ok _) = true
is_ok (err _) = false

pub Result-cases {ℓ κ} :
    {E : Type ℓ} {A : Type κ} (m : Result E A) → ((a : A) × (m ≡ ok a)) ⊎ ((e : E) × (m ≡ err e))
Result-cases (ok a) = inl (a, refl)
Result-cases (err e) = inr (e, refl)

-- A bind succeeds when both parts do, if the second part's success does not depend on the value.
pub is_ok->>= {ℓ κ μ} :
    {E : Type ℓ} {A : Type κ} {B : Type μ} (m : Result E A) (f : A → Result E B) (b : Bool)
    → ((a : A) → is_ok (f a) ≡ b)
    → is_ok (m >>= f) ≡ (is_ok m && b)
is_ok->>= (ok a) f b h = h a
is_ok->>= (err e) f b h = refl
