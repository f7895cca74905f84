-- ===== src/Watch/Watchers.antt =====
-- pkg/store/watch/watchers.go and wctx.go: the registry of watchers, each with a channel of its
-- own. A `*WatchCtx` is its id and the reference of its channel; the channels are a heap, in which
-- a client that still holds a reference finds a channel that the registry has dropped.
pub mod Consistent
pub mod Added
pub mod Delivery
pub mod Notify
pub mod Received
pub mod Stop
pub mod Bounded
use apiserver_runtime_exampl.Base.{
  ℕ, List, [], ◌∷◌, ◌++◌, Option, none, some, Bool, Outcome, done, ◌>>=◌, Result, ok, err, length,
  Dict, lookup, insert, erase, nat_eq,
}
use apiserver_runtime_exampl.Channel.{Heap, make_chan, send, close}
use apiserver_runtime_exampl.Watch.{Event}
use apiserver_runtime_exampl.Watch.IdAllocator
use apiserver_runtime_exampl.Watch.IdAllocator.{
  IdAllocator, IdError, new_id_allocator, allocate_id, release_id,
}

pub record WatchCtx : Type 0 where
  pub result_ch : ℕ
  pub id : ℕ

pub record Watchers {ℓ} (T : Type ℓ) : Type ℓ where
  pub watchers : Dict ℕ WatchCtx
  pub id_allocator : IdAllocator
  pub chans : Heap (Event T)

module _ {ℓ} {T : Type ℓ} where
  -- The size that the source gives to the map is only a hint.
  unfoldable pub new_watchers : ℕ → Watchers T
  new_watchers max_watchers = record {
    watchers = [];
    id_allocator = new_id_allocator max_watchers;
    chans = [];
  }

  unfoldable pub get_watch_context : Watchers T → Watchers T × WatchCtx
  get_watch_context r = (
    record r { chans = r.chans ++ make_chan 10 ∷ [] },
    record { result_ch = length r.chans; id = 0 },
  )

  unfoldable pub is_exhausted : Watchers T → Bool
  is_exhausted r = IdAllocator.is_exhausted r.id_allocator

  unfoldable pub len : Watchers T → ℕ
  len r = length r.watchers

  -- What `Add` does with the allocator's answer.
  add_with :
      Watchers T → WatchCtx → IdAllocator × Result IdError ℕ → Watchers T × Result IdError WatchCtx
  add_with r w (a, ok id) = (
    record r { id_allocator = a; watchers = insert id (record w { id = id }) r.watchers },
    ok (record w { id = id }),
  )
  add_with r w (a, err e) = (record r { id_allocator = a }, err e)

  -- A watcher that was added carries its id.
  unfoldable pub add : Watchers T → WatchCtx → Watchers T × Result IdError WatchCtx
  unfolding add_with
  add r w = add_with r w (allocate_id r.id_allocator)

  -- `Del` of a registered id: release it, drop the entry, close the channel.
  del_found : Watchers T → ℕ → WatchCtx → Outcome (Watchers T)
  del_found r id wctx = do
    chans ← close r.chans wctx.result_ch
    done (record r {
      id_allocator = (release_id r.id_allocator id).0;
      watchers = erase id r.watchers;
      chans = chans;
    })

  unfoldable pub del : Watchers T → ℕ → Outcome (Watchers T)
  unfolding del_found
  del r id = elim (lookup id r.watchers) [ none ↦ done r | some wctx ↦ del_found r id wctx ]

  -- The loop of `NotifyWatchers`.
  unfoldable pub notify_all : Dict ℕ WatchCtx → Event T → Heap (Event T) → Outcome (Heap (Event T))
  notify_all [] ev h = done h
  notify_all ((id, w) ∷ rest) ev h = do h' ← send h w.result_ch ev; notify_all rest ev h'

  unfoldable pub notify_watchers : Watchers T → Event T → Outcome (Watchers T)
  notify_watchers r ev = do
    chans ← notify_all r.watchers ev r.chans
    done (record r { chans = chans })

  -- `WatchCtx.Stop`
  unfoldable pub stop : Watchers T → WatchCtx → Outcome (Watchers T)
  unfolding del
  stop r w = del r w.id
