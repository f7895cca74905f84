-- ===== src/Watch/Watchers/Bounded.antt =====
-- pkg/store/watch: how many watchers a registry can have. `newIDAllocator(n)` hands out the ids from
-- 0 to `n`, which are `n + 1`.
use apiserver_runtime_exampl.Base.{
  ℕ, zero, suc, ◌≤◌, ◌<◌, ◌≡◌, ◌≢◌, refl, ap, sym, ◌∙◌, inl, inr, true, false, some, List, [], ◌∷◌,
  arith, length, lookup, erase, Dict, NodupKeys, erase-NodupKeys, lookup-erase, lookup-erase-some,
  length-erase, Option-cases, nat_eq, ≟_refl, count,
}
use apiserver_runtime_exampl.Watch.IdAllocator.{IdAllocator, is_allocated}
use apiserver_runtime_exampl.Watch.IdAllocator
use apiserver_runtime_exampl.Watch.Watchers.{WatchCtx, Watchers, len, is_exhausted}
use apiserver_runtime_exampl.Watch.Watchers.Consistent.{IsConsistent, is_some}

module _ {ℓ} {V : Type ℓ} where
  -- Keys below `n` make at most `n` entries.
  length-keys_below :
      (n : ℕ) (m : Dict ℕ V)
      → NodupKeys m
      → ((k : ℕ) (v : V) → lookup k m ≡ some v → k < n)
      → length m ≤ n
  unfolding lookup
  length-keys_below zero [] u h = omega arith
  length-keys_below zero ((k, v) ∷ m) u h =
      let bad = h k v (rw (≟_refl k) refl) in absurd (omega arith)
  length-keys_below (suc n) m u h = elim (Option-cases (lookup n m)) [
    | inl free ↦
        let fewer = length-keys_below n m u λ k v found.
          let small = h k v found in
          let other : k ≢ n = λ same. let both = sym (ap (λ i. lookup i m) same) ∙ found in cc in
          omega arith in
        omega arith
    | inr (v, there) ↦
        let fewer = length-keys_below n (erase n m) (erase-NodupKeys n m u) λ k w found.
          let (other, old) = lookup-erase-some n k w m found in
          let small = h k w old in omega arith in
        omega (arith, length-erase n m u there)
  ]

  -- If every number below `n` is a key, there are at least `n` entries.
  length-keys_all :
      (n : ℕ) (m : Dict ℕ V)
      → NodupKeys m
      → ((k : ℕ) → k < n → (v : V) × (lookup k m ≡ some v))
      → n ≤ length m
  length-keys_all zero m u h = omega arith
  length-keys_all (suc n) m u h =
      let (v, there) = h n (omega arith) in
      let more =
        length-keys_all n (erase n m) (erase-NodupKeys n m u)
          λ k small. let (w, old) = h k (omega arith) in (w, ground (arith, lookup-erase n k m)) in
      omega (arith, length-erase n m u there)

exhausted-nil : (ids : List ℕ) → (elim ids [ [] ↦ true | _ ∷ _ ↦ false ]) ≡ true → ids ≡ []
exhausted-nil [] h = refl
exhausted-nil (id ∷ ids) h = cc

module _ {ℓ} {T : Type ℓ} where
  id_bound :
      (r : Watchers T) (i : ℕ) (w : WatchCtx)
      → IsConsistent r
      → lookup i r.watchers ≡ some w
      → i < suc r.id_allocator.max_id
  id_bound r i w v found =
      let held : is_allocated r.id_allocator i ≡ true = v.registered i ∙ ap is_some found in
      ground (arith, v.ids i)

  all_registered :
      (r : Watchers T) (i : ℕ)
      → IsConsistent r
      → is_exhausted r ≡ true
      → i < suc r.id_allocator.max_id
      → (w : WatchCtx) × (lookup i r.watchers ≡ some w)
  unfolding is_exhausted IdAllocator.is_exhausted
  all_registered r i v full small =
      let empty : r.id_allocator.available_ids ≡ [] =
        exhausted-nil r.id_allocator.available_ids full in
      let held : is_allocated r.id_allocator i ≡ true =
        ground (arith, v.ids i, ap (count i) empty) in
      elim (Option-cases (lookup i r.watchers)) [
        | inl missing ↦ let wrong = sym held ∙ v.registered i ∙ ap is_some missing in cc
        | inr found ↦ found
      ]

  -- A consistent registry has at most one watcher more than its maximum, and it is exhausted only
  -- when it has that many.
  pub watchers-bounded :
      (r : Watchers T)
      → IsConsistent r
      → (len r ≤ suc r.id_allocator.max_id)
        × (is_exhausted r ≡ true → len r ≡ suc r.id_allocator.max_id)
  unfolding len
  watchers-bounded r v =
      let most =
        length-keys_below (suc r.id_allocator.max_id) r.watchers v.unique
          λ i w found. id_bound r i w v found in
      (
        most,
        λ full.
            let least =
              length-keys_all (suc r.id_allocator.max_id) r.watchers v.unique
                λ i small. all_registered r i v full small in
            omega arith,
      )
