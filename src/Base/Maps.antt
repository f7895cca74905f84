-- ===== src/Base/Maps.antt =====
-- Go's maps as association lists. The order of the entries stands for the order in which a `range`
-- visits them, which Go leaves open: a theorem about every list is one about every order.
use Prim.Native.Nat.{suc}
use mathlib.Core.Path.{◌≡◌, refl, sym, ◌∙◌, ap, subst}
use mathlib.Core.List.{List, [], ◌∷◌, ◌++◌}
use mathlib.Core.Logic.{◌≢◌, ◌⊎◌, inl, inr}
use mathlib.Core.Option.{Option, none, some}
use native.Mathlib.Omega.{arith}
use apiserver_runtime_exampl.Base.Tests.{if◌then◌else◌}
use apiserver_runtime_exampl.Base.Equality.{Eq, ◌≟◌, ≟_refl}
use apiserver_runtime_exampl.Base.Lists.{All, length}

abbrev pub Dict {ℓ κ} : Type ℓ → Type κ → Type (ℓ ⊔ κ)
Dict K V = List (K × V)

module _ {ℓ κ} {K : Type ℓ} {V : Type κ} ⦃e : Eq K⦄ where
  -- `m[k]`
  unfoldable pub lookup : K → Dict K V → Option V
  lookup k [] = none
  lookup k ((j, v) ∷ m) = if j ≟ k then some v else lookup k m

  -- `m[k] = v`
  unfoldable pub insert : K → V → Dict K V → Dict K V
  insert k v [] = (k, v) ∷ []
  insert k v ((j, w) ∷ m) = if j ≟ k then (k, v) ∷ m else (j, w) ∷ insert k v m

  -- `delete(m, k)`
  unfoldable pub erase : K → Dict K V → Dict K V
  erase k [] = []
  erase k ((j, w) ∷ m) = let rest = erase k m in if j ≟ k then rest else (j, w) ∷ rest

  abbrev pub NodupKeys : Dict K V → Type κ
  NodupKeys [] = Unit
  NodupKeys ((k, _) ∷ m) = (lookup k m ≡ none) × NodupKeys m

  pub lookup-nil : (k : K) → lookup k [] ≡ none
  unfolding lookup
  lookup-nil k = refl

  pub lookup-insert :
      (k j : K) (v : V) (m : Dict K V)
      → lookup j (insert k v m) ≡ (if k ≟ j then some v else lookup j m)
  unfolding lookup insert
  lookup-insert k j v [] = refl
  lookup-insert k j v ((i, w) ∷ m) = ground (arith, lookup-insert k j v m)

  pub lookup-erase :
      (k j : K) (m : Dict K V) → lookup j (erase k m) ≡ (if k ≟ j then none else lookup j m)
  unfolding lookup erase
  lookup-erase k j [] = ground arith
  lookup-erase k j ((i, w) ∷ m) = ground (arith, lookup-erase k j m)

  pub insert-NodupKeys : (k : K) (v : V) (m : Dict K V) → NodupKeys m → NodupKeys (insert k v m)
  unfolding insert
  insert-NodupKeys k v [] _ = (lookup-nil k, tt)
  insert-NodupKeys k v ((j, _) ∷ m) (fresh, u) =
      ground (arith, insert-NodupKeys k v m u, lookup-insert k j v m)

  pub erase-NodupKeys : (k : K) (m : Dict K V) → NodupKeys m → NodupKeys (erase k m)
  unfolding erase
  erase-NodupKeys k [] _ = tt
  erase-NodupKeys k ((j, _) ∷ m) (fresh, u) =
      ground (arith, erase-NodupKeys k m u, lookup-erase k j m)

  -- What holds of every entry that a lookup finds holds of every entry.
  pub All-lookup {μ} :
      (P : K × V → Type μ) (m : Dict K V)
      → NodupKeys m
      → ((k : K) (v : V) → lookup k m ≡ some v → P (k, v))
      → All P m
  unfolding lookup
  All-lookup P [] _ h = tt
  All-lookup P ((k, v) ∷ m) (fresh, u) h =
      (h k v (rw ≟_refl), All-lookup P m u λ j w found. h j w (ground (arith)))

  pub lookup-All {μ} :
      (P : K × V → Type μ) (m : Dict K V) (k : K) (v : V) → All P m → lookup k m ≡ some v → P (k, v)
  unfolding lookup
  lookup-All P [] k v a found = cc
  lookup-All P ((j, w) ∷ m) k v (first, rest) found = elim (e.dec j k) [
    | yes same ↦ let value : w ≡ v = ground arith in subst P (λ i. (same i, value i)) first
    | no other ↦ lookup-All P m k v rest (ground arith)
  ]

  -- What a lookup after an insertion found.
  pub lookup-insert-some :
      (k j : K) (v w : V) (m : Dict K V)
      → lookup j (insert k v m) ≡ some w
      → ((k ≡ j) × (v ≡ w)) ⊎ ((k ≢ j) × (lookup j m ≡ some w))
  lookup-insert-some k j v w m found = elim (e.dec k j) [
    | yes same ↦ inl (same, ground (arith, lookup-insert k j v m))
    | no other ↦ inr (other, ground (arith, lookup-insert k j v m))
  ]

  -- What a lookup after a deletion found.
  pub lookup-erase-some :
      (k j : K) (w : V) (m : Dict K V)
      → lookup j (erase k m) ≡ some w
      → (k ≢ j) × (lookup j m ≡ some w)
  lookup-erase-some k j w m found = elim (e.dec k j) [
    | yes same ↦ absurd (ground (arith, lookup-erase k j m))
    | no other ↦ (other, ground (arith, lookup-erase k j m))
  ]

  -- An entry that the tail of a map holds is one of the map.
  pub lookup-tail :
      (k j : K) (v w : V) (m : Dict K V)
      → lookup k m ≡ none
      → lookup j m ≡ some w
      → lookup j ((k, v) ∷ m) ≡ some w
  unfolding lookup
  lookup-tail k j v w m fresh found = elim (e.dec k j) [
    | yes same ↦ absurd (ground (arith, ap (λ x. lookup x m) same))
    | no other ↦ ground arith
  ]

  pub insert-fresh :
      (k : K) (v : V) (m : Dict K V) → lookup k m ≡ none → insert k v m ≡ m ++ (k, v) ∷ []
  unfolding lookup insert
  insert-fresh k v [] fresh = refl
  insert-fresh k v ((j, w) ∷ m) fresh = ground (arith, insert-fresh k v m)

  -- No entry has a key that a lookup does not find.
  pub All-fresh : (k : K) (m : Dict K V) → lookup k m ≡ none → All (λ e. k ≢ e.0) m
  unfolding lookup
  All-fresh k [] fresh = tt
  All-fresh k ((j, w) ∷ m) fresh = (λ same. ground arith, All-fresh k m (ground arith))

  pub All-lookup-insert :
      (k : K) (v : V) (acc m : Dict K V)
      → All (λ e. lookup e.0 acc ≡ none) m
      → All (λ e. k ≢ e.0) m
      → All (λ e. lookup e.0 (insert k v acc) ≡ none) m
  All-lookup-insert k v acc [] _ _ = tt
  All-lookup-insert k v acc ((j, w) ∷ m) (missing, rest) (other, others) =
      (ground (arith, lookup-insert k j v acc), All-lookup-insert k v acc m rest others)

  pub All-lookup-nil : (m : Dict K V) → All (λ e. lookup e.0 [] ≡ none) m
  unfolding lookup
  All-lookup-nil [] = tt
  All-lookup-nil (_ ∷ m) = (refl, All-lookup-nil m)

  -- A map loses one entry with a key that it holds, and none without.
  pub erase-fresh : (k : K) (m : Dict K V) → lookup k m ≡ none → erase k m ≡ m
  unfolding lookup erase
  erase-fresh k [] fresh = refl
  erase-fresh k ((j, w) ∷ m) fresh = ground (arith, erase-fresh k m)

  pub length-erase :
      (k : K) (m : Dict K V) {v : V}
      → NodupKeys m
      → lookup k m ≡ some v
      → suc (length (erase k m)) ≡ length m
  unfolding lookup erase
  length-erase k [] _ found = cc
  length-erase k ((j, w) ∷ m) {v} (fresh, u) found = elim (e.dec j k) [
    | yes same ↦ ground (arith, erase-fresh k m (ap (λ x. lookup x m) (sym same) ∙ fresh))
    | no other ↦
        let there : lookup k m ≡ some v = ground arith in ground (arith, length-erase k m u there)
  ]

  pub length-insert :
      (k : K) (v : V) (m : Dict K V) {w : V}
      → lookup k m ≡ some w
      → length (insert k v m) ≡ length m
  unfolding lookup insert
  length-insert k v [] found = cc
  length-insert k v ((j, i) ∷ m) {w} found = elim (e.dec j k) [
    | yes same ↦ ground arith
    | no other ↦
        let there : lookup k m ≡ some w = ground arith in ground (arith, length-insert k v m there)
  ]
