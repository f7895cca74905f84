-- ===== src/Base/Fallible.antt =====
-- Chains of calls that return an error.
use mathlib.Core.Path.{◌≡◌, refl}
use apiserver_runtime_exampl.Base.Results.{Result, ok, err}

infixl 5 ◌>>=◌
abbrev pub ◌>>=◌ {ℓ κ μ} :
    {E : Type μ} {A : Type ℓ} {B : Type κ} → Result E A → (A → Result E B) → Result E B
err e >>= next = err e
ok a >>= next = next a

-- A chain that ends well began well.
pub >>=-eq-ok {ℓ κ μ} :
    {E : Type μ} {A : Type ℓ} {B : Type κ} (first : Result E A) (next : A → Result E B) {end : B}
    → (first >>= next) ≡ ok end
    → (x : A) × (first ≡ ok x) × (next x ≡ ok end)
>>=-eq-ok (err e) next ran = cc
>>=-eq-ok (ok x) next ran = (x, refl, ran)

-- Regrouping a chain, where its continuations agree.
pub >>=-congr {ℓ κ ν μ} :
    {E : Type μ} {A : Type ℓ} {B : Type κ} {C : Type ν} (m : Result E A) (f : A → Result E C)
    (g : A → Result E B) (k : B → Result E C)
    → ((a : A) → f a ≡ (g a >>= k))
    → (m >>= f) ≡ ((m >>= g) >>= k)
>>=-congr (ok a) f g k h = h a
>>=-congr (err e) f g k h = refl
