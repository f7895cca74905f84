-- ===== src/Config/Watchers.antt =====
-- pkg/config/watch.go and id_allocator.go: the watchers of the REST storage. They are those of
-- pkg/store/watch, copied, but for `Del`, which neither looks the id up nor closes the channel.
use apiserver_runtime_exampl.Base.{ℕ, erase, nat_eq}
use apiserver_runtime_exampl.Watch.IdAllocator.{release_id}
use apiserver_runtime_exampl.Watch.Watchers.{WatchCtx, Watchers}

module _ {ℓ} {T : Type ℓ} where
  -- `Del`; the allocator's error is dropped.
  unfoldable pub del_watch : Watchers T → ℕ → Watchers T
  del_watch r id = record r {
    id_allocator = (release_id r.id_allocator id).0;
    watchers = erase id r.watchers;
  }

  -- `mWatch.Stop`
  unfoldable pub stop_watch : Watchers T → WatchCtx → Watchers T
  unfolding del_watch
  stop_watch r w = del_watch r w.id
