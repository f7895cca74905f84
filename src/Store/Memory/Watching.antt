-- ===== src/Store/Memory/Watching.antt =====
-- `Watch` on the store in memory.
use apiserver_runtime_exampl.Base.{
  ◌≤◌, ◌<◌, ◌≡◌, refl, sym, ap, ◌∙◌, true, false, none, some, List, [], ◌∷◌, ◌++◌, map,
  append_assoc, append-nil, >>=_assoc, arith, done, blocked, ◌>>=◌, Result, ok, err, length,
  length-map, All, Dict, lookup, insert, insert-fresh, All-fresh, All-lookup-insert, All-lookup-nil,
  NodupKeys,
}
use apiserver_runtime_exampl.Channel.Burst.{send_all}
use apiserver_runtime_exampl.Watch.{Event, added}
use apiserver_runtime_exampl.Watch.Watchers
use apiserver_runtime_exampl.Watch.Watchers.{WatchCtx, Watchers, get_watch_context}
use apiserver_runtime_exampl.Watch.Watchers.Added.{opened, opened-waits, opened-returns, Opened}
use apiserver_runtime_exampl.Store.Key.{Key, key_eq}
use apiserver_runtime_exampl.Store.Contract.{StoreError, out_of_resources}
use apiserver_runtime_exampl.Store.Memory.{
  Mem, visit, collect, added_events, register, open_watch, watch,
}
use apiserver_runtime_exampl.Store.Memory.Refines.{IsStore}

module _ {ℓ} {T : Type ℓ} where
  visit-insert :
      (m acc : Dict Key T)
      → NodupKeys m
      → All (λ e. lookup e.0 acc ≡ none) m
      → visit (some (λ key x items. insert key x items)) m acc ≡ acc ++ m
  unfolding visit
  visit-insert [] acc u missing = rw append-nil
  visit-insert ((k, x) ∷ m) acc (fresh, u) (first, rest) =
      visit-insert m (insert k x acc) u (All-lookup-insert k x acc m rest (All-fresh k m fresh))
      ∙ ap (λ a. a ++ m) (insert-fresh k x acc first)
      ∙ append_assoc acc ((k, x) ∷ []) m

  -- The copy that `Watch` makes holds what the store holds.
  collect-eq : (r : Mem T) → IsStore r → collect r ≡ r.db
  unfolding collect
  collect-eq r v = visit-insert r.db [] v.unique (All-lookup-nil r.db)

  abbrev initial : Mem T → List (Event T)
  initial r = map (λ (_, x). record { event_type = added; object = x }) r.db

  length-initial : (r : Mem T) → length (initial r) ≡ length r.db
  length-initial r = length-map (λ (_, x). record { event_type = added; object = x }) r.db

  -- `Watch` with an id to spare is the registry's opening of a watcher.
  watch-opened :
      (r : Mem T)
      → IsStore r
      → Watchers.is_exhausted r.watchers ≡ false
      → watch r
        ≡ ◌>>=◌ {B = Mem T × Result StoreError WatchCtx}
            (opened (get_watch_context r.watchers) (initial r))
            (λ a. done (register r a))
  unfolding watch open_watch added_events
  watch-opened r v free =
      rw (free, collect-eq r v)
        (sym (>>=_assoc (send_all _ _ (initial r)) _ (λ a. done (register r a))))

  -- On a consistent store with a free watcher id and more than ten objects, `Watch` waits for ever: the initial events go to a
  -- channel of ten places that no client has yet.
  pub watch-waits :
      (r : Mem T)
      → IsStore r
      → Watchers.is_exhausted r.watchers ≡ false
      → 10 < length r.db
      → watch r ≡ blocked
  watch-waits r v free big =
      watch-opened r v free
      ∙ rw (opened-waits r.watchers (initial r) (omega (arith, length-initial r)))

  -- On a consistent store with a free watcher id and at most ten objects, `Watch` returns a registered watcher, whose channel holds one `Added` event
  -- for each object; the objects and the other watchers' events are as before.
  pub watch-returns :
      (r : Mem T)
      → IsStore r
      → Watchers.is_exhausted r.watchers ≡ false
      → length r.db ≤ 10
      → (r' : Mem T) × (w : WatchCtx) × (watch r ≡ done (r', ok w))
        × (r'.db ≡ r.db)
        × IsStore r'
        × Opened r.watchers r'.watchers w
            (map (λ (_, x). record { event_type = added; object = x }) r.db)
  unfolding register
  watch-returns r v free small =
      let (ws, w, same, after) =
        opened-returns r.watchers (initial r) v.consistent free (omega (arith, length-initial r)) in
      (
        record r { watchers = ws },
        w,
        watch-opened r v free ∙ rw same,
        refl,
        record { unique = v.unique; consistent = after.consistent },
        after,
      )

  -- Without a free id it fails and changes nothing.
  pub watch-exhausted :
      (r : Mem T)
      → Watchers.is_exhausted r.watchers ≡ true
      → watch r ≡ done (r, err out_of_resources)
  unfolding watch
  watch-exhausted r full = rw full
