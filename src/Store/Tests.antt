-- ===== src/Store/Tests.antt =====
-- Runs of the store in memory, and the theorems about it at these runs.
use apiserver_runtime_exampl.Base.{
  ℕ, zero, suc, ◌≤◌, ◌<◌, ◌≡◌, refl, false, [], ◌∷◌, map, arith, done, blocked, ok, lookup, insert,
  nat_eq, text_eq, ℕ_discrete, Text-discrete, length, ◌==◌, Dict, NodupKeys, insert-NodupKeys,
  codes, Returns,
}
use apiserver_runtime_exampl.Watch.{added}
use apiserver_runtime_exampl.Watch.IdAllocator
use apiserver_runtime_exampl.Watch.IdAllocator.{new_id_allocator}
use apiserver_runtime_exampl.Watch.Watchers
use apiserver_runtime_exampl.Watch.Watchers.{WatchCtx, new_watchers, notify_watchers, notify_all}
use apiserver_runtime_exampl.Watch.Watchers.Added.{Opened}
use apiserver_runtime_exampl.Watch.Watchers.Consistent.{new_watchers-IsConsistent}
use apiserver_runtime_exampl.Store.Key.{Key, key_eq, get_name_key}
use apiserver_runtime_exampl.Store.Contract.{create, call_spec}
use apiserver_runtime_exampl.Store.Memory.{Mem, run_call, watch}
use apiserver_runtime_exampl.Store.Memory.Refines.{IsStore, Meets, view, run_call-Meets}
use apiserver_runtime_exampl.Store.Memory.Watching.{watch-waits, watch-returns}

-- A store with `n` objects.
abbrev filled : ℕ → Dict Key ℕ
filled zero = []
filled (suc n) = insert (get_name_key (n ∷ [])) n (filled n)

filled-NodupKeys : (n : ℕ) → NodupKeys (filled n)
filled-NodupKeys zero = tt
filled-NodupKeys (suc n) =
    insert-NodupKeys (get_name_key (n ∷ [])) n (filled n) (filled-NodupKeys n)

abbrev store_of : ℕ → Mem ℕ
store_of n = record { db = filled n; watchers = new_watchers 32 }

store_of-IsStore : (n : ℕ) → IsStore (store_of n)
store_of-IsStore n = record {
  unique = filled-NodupKeys n;
  consistent = new_watchers-IsConsistent 32;
}

abbrev key_a : Key
key_a = record { namespace = codes "default"; name = codes "a" }

-- A create in an empty store.
created :
    run_call ◌==◌ (store_of 0) (create key_a 5)
    ≡ done (record (store_of 0) { db = (key_a, 5) ∷ [] }, ok tt)
unfolding run_call new_watchers lookup insert notify_watchers notify_all
created = refl

run_call-Meets_example :
    Meets
      (store_of 0)
      (record (store_of 0) { db = (key_a, 5) ∷ [] })
      (ok tt)
      (call_spec ◌==◌ (view (store_of 0)) (create key_a 5))
run_call-Meets_example =
    run_call-Meets ◌==◌ (store_of 0) (record (store_of 0) { db = (key_a, 5) ∷ [] }) (create key_a 5)
      (ok tt) (store_of-IsStore 0) created

some_id : Watchers.is_exhausted (store_of 11).watchers ≡ false
unfolding new_watchers Watchers.is_exhausted IdAllocator.is_exhausted new_id_allocator
some_id = refl

eleven : 10 < length (filled 11)
unfolding insert get_name_key key_eq ℕ_discrete Text-discrete
eleven = omega arith

two : length (filled 2) ≤ 10
unfolding insert get_name_key key_eq ℕ_discrete Text-discrete
two = omega arith

watch-waits_example : watch (store_of 11) ≡ blocked
watch-waits_example = watch-waits (store_of 11) (store_of-IsStore 11) some_id eleven

watch-returns_example :
    (r' : Mem ℕ) × (w : WatchCtx) × (watch (store_of 2) ≡ done (r', ok w))
    × (r'.db ≡ filled 2)
    × IsStore r'
    × Opened
        (store_of 2).watchers
        r'.watchers
        w
        (map (λ (_, x). record { event_type = added; object = x }) (filled 2))
watch-returns_example = watch-returns (store_of 2) (store_of-IsStore 2) some_id two
