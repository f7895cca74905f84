-- ===== src/Base/Equality.antt =====
-- Go's `==` on values whose equality can be decided.
use Prim.Native.Nat.{ℕ}
use mathlib.Core.Path.{◌≡◌}
use mathlib.Core.Logic.{ite, ◌≢◌}
use mathlib.Core.Bool.{Bool, true, false}
use native.Mathlib.Omega.{arith}
use native.Mathlib.Decide.{ℕ_discrete}
use apiserver_runtime_exampl.Base.Tests.{Text}

pub record Eq {ℓ} (A : Type ℓ) : Type ℓ where
  pub dec : Discrete A

module _ {ℓ} {A : Type ℓ} ⦃e : Eq A⦄ where
  infix 50 ◌≟◌
  abbrev pub ◌≟◌ : A → A → Bool
  a ≟ b = ite (e.dec a b) true false

  pub ≟_refl : (a : A) → a ≟ a ≡ true
  ≟_refl a = ground arith

  pub ≟_ne : (a b : A) → a ≢ b → a ≟ b ≡ false
  ≟_ne a b h = ground arith

unfoldable pub Text-discrete : Discrete Text
Text-discrete = hlevel ℕ_discrete

instance unfoldable pub nat_eq : Eq ℕ
nat_eq = record { dec = ℕ_discrete }

instance unfoldable pub text_eq : Eq Text
unfolding Text-discrete
text_eq = record { dec = Text-discrete }
