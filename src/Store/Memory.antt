-- ===== src/Store/Memory.antt =====
-- pkg/store/memory/memory.go: the store in memory. A call is one step: the source takes its lock
-- for each access of the map, and calls that overlap are not modelled here.
pub mod Refines
pub mod Returns
pub mod Watching
use apiserver_runtime_exampl.Base.{
  ℕ, Bool, true, false, Option, none, some, List, [], ◌∷◌, ◌++◌, map, if◌then◌else◌, Outcome, done,
  ◌>>=◌, Result, ok, err, Dict, lookup, insert, erase,
}
use apiserver_runtime_exampl.Channel.Burst.{send_all}
use apiserver_runtime_exampl.Watch.{Event, EventType, added, modified, deleted}
use apiserver_runtime_exampl.Watch.IdAllocator.{IdError}
use apiserver_runtime_exampl.Watch.Watchers
use apiserver_runtime_exampl.Watch.Watchers.{
  WatchCtx, Watchers, new_watchers, notify_watchers, get_watch_context,
}
use apiserver_runtime_exampl.Store.Key.{Key, key_eq}
use apiserver_runtime_exampl.Store.Contract.{
  StoreError, not_found, duplicate_entry, out_of_resources, cannot_add, Call, create, update,
  delete,
}

pub record Mem {ℓ} (T : Type ℓ) : Type ℓ where
  pub db : Dict Key T
  pub watchers : Watchers T

abbrev pub event {ℓ} : {T : Type ℓ} → EventType → T → Event T
event t x = record { event_type = t; object = x }

module _ {ℓ} {T : Type ℓ} where
  -- `NewStore`
  unfoldable pub new_store : Mem T
  new_store = record { db = []; watchers = new_watchers 32 }

  -- `Get`
  found : Key → Option T → Result StoreError T
  found key none = err (not_found key)
  found key (some x) = ok x

  unfoldable pub get : Mem T → Key → Result StoreError T
  unfolding found
  get r key = found key (lookup key r.db)

  -- `List`: the visitor is a closure that may be nil; what it writes to is the state `S`.
  unfoldable pub visit {κ} : {S : Type κ} → Option (Key → T → S → S) → Dict Key T → S → S
  visit none entries s = s
  visit (some f) [] s = s
  visit (some f) ((k, x) ∷ rest) s = visit (some f) rest (f k x s)

  unfoldable pub list {κ} : {S : Type κ} → Mem T → Option (Key → T → S → S) → S → S
  unfolding visit
  list r visitor s = visit visitor r.db s

  notify : Mem T → Event T → Outcome (Mem T)
  notify r ev = do ws ← notify_watchers r.watchers ev; done (record r { watchers = ws })

  -- The private `update` and `delete`.
  write : Mem T → Key → T → Mem T
  write r key x = record r { db = insert key x r.db }

  drop : Mem T → Key → Mem T
  drop r key = record r { db = erase key r.db }

  create_with :
      Mem T → Key → T → Result StoreError T → Outcome (Mem T × Result StoreError (Unit {0}))
  create_with r key x (ok _) = done (r, err (duplicate_entry key))
  create_with r key x (err _) = do r' ← notify (write r key x) (event added x); done (r', ok tt)

  module _ (deep_equal : T → T → Bool) where
    update_with :
        Mem T → Key → T → Result StoreError T → Outcome (Mem T × Result StoreError (Unit {0}))
    update_with r key x (ok old) =
        if deep_equal old x
        then done (write r key x, ok tt)
        else (do r' ← notify (write r key x) (event modified x); done (r', ok tt))
    update_with r key x (err _) = do r' ← notify (write r key x) (event added x); done (r', ok tt)

  delete_with : Mem T → Key → Result StoreError T → Outcome (Mem T × Result StoreError (Unit {0}))
  delete_with r key (err _) = done (r, ok tt)
  delete_with r key (ok obj) = do r' ← notify r (event deleted obj); done (drop r' key, ok tt)

  -- `Create`, `Update` and `Delete`.
  unfoldable pub run_call :
      (T → T → Bool) → Mem T → Call T → Outcome (Mem T × Result StoreError (Unit {0}))
  unfolding get notify write drop create_with update_with delete_with
  run_call deep_equal r (create key x) = create_with r key x (get r key)
  run_call deep_equal r (update key x) = update_with deep_equal r key x (get r key)
  run_call deep_equal r (delete key) = delete_with r key (get r key)

  -- The copy of the store that `Watch` makes through `List`.
  collect : Mem T → Dict Key T
  unfolding list
  collect r = list r (some (λ key x items. insert key x items)) []

  -- The initial events of a watch.
  added_events : Dict Key T → List (Event T)
  added_events items = map (λ (_, x). event added x) items

  register : Mem T → Watchers T × Result IdError WatchCtx → Mem T × Result StoreError WatchCtx
  register r (ws, ok w) = (record r { watchers = ws }, ok w)
  register r (ws, err e) = (record r { watchers = ws }, err (cannot_add e))

  open_watch : Mem T → Watchers T × WatchCtx → Outcome (Mem T × Result StoreError WatchCtx)
  open_watch r (ws, w) = do
    chans ← send_all ws.chans w.result_ch (added_events (collect r))
    done (register r (Watchers.add (record ws { chans = chans }) w))

  -- `Watch`
  unfoldable pub watch : Mem T → Outcome (Mem T × Result StoreError WatchCtx)
  unfolding collect added_events register open_watch
  watch r =
      if Watchers.is_exhausted r.watchers
      then done (r, err out_of_resources)
      else open_watch r (get_watch_context r.watchers)
