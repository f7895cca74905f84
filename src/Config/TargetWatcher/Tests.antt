-- ===== src/Config/TargetWatcher/Tests.antt =====
-- A run of the goroutine that watches the targets.
use apiserver_runtime_exampl.Base.{
  ℕ, ◌≡◌, refl, none, some, [], ◌∷◌, done, ok, lookup, insert, nat_eq, ◌==◌,
}
use apiserver_runtime_exampl.Channel.{IsOpen, make_chan, send}
use apiserver_runtime_exampl.Channel.Burst.{send_all}
use apiserver_runtime_exampl.Watch.{added}
use apiserver_runtime_exampl.Watch.IdAllocator
use apiserver_runtime_exampl.Watch.IdAllocator.{new_id_allocator, allocate_id}
use apiserver_runtime_exampl.Watch.Watchers
use apiserver_runtime_exampl.Watch.Watchers.{
  WatchCtx, Watchers, new_watchers, notify_watchers, notify_all,
}
use apiserver_runtime_exampl.Watch.Watchers.Consistent.{new_watchers-IsConsistent}
use apiserver_runtime_exampl.Store.Contract.{create}
use apiserver_runtime_exampl.Store.Key.{Key, get_name_key}
use apiserver_runtime_exampl.Store.Memory
use apiserver_runtime_exampl.Store.Memory.{Mem, run_call}
use apiserver_runtime_exampl.Store.Memory.Refines.{IsStore}
use apiserver_runtime_exampl.Config.TargetWatcher.{reading, started, changed}
use apiserver_runtime_exampl.Config.TargetWatcher.Reading.{here, next, Reach-reading}

abbrev no_targets : Mem ℕ
no_targets = record { db = []; watchers = new_watchers 32 }

no_targets-IsStore : IsStore no_targets
no_targets-IsStore = record { unique = tt; consistent = new_watchers-IsConsistent 32 }

-- The first watcher gets the id 0 and the first channel.
abbrev first : WatchCtx
first = record { result_ch = 0; id = 0 }

abbrev watched : Mem ℕ
watched = record {
  db = [];
  watchers = record {
    watchers = (0, first) ∷ [];
    id_allocator = (allocate_id (new_id_allocator 32)).0;
    chans = make_chan 10 ∷ [];
  };
}

started_watch : Memory.watch no_targets ≡ done (watched, ok first)
unfolding Memory.watch new_watchers Watchers.is_exhausted IdAllocator.is_exhausted new_id_allocator
    Watchers.get_watch_context Watchers.add allocate_id insert send_all
started_watch = refl

abbrev a_target : Key
a_target = get_name_key (1 ∷ [])

-- The watch is told of a create.
abbrev told : Mem ℕ
told = record {
  db = (a_target, 5) ∷ [];
  watchers = record watched.watchers {
    chans = record (make_chan 10) { buffer = record { event_type = added; object = 5 } ∷ [] } ∷ [];
  };
}

accepted : run_call ◌==◌ watched (create a_target 5) ≡ done (told, ok tt)
unfolding run_call notify_watchers notify_all lookup insert send
accepted = refl

Reach-reading_example :
    (lookup 0 told.watchers.watchers ≡ some first)
    × IsOpen told.watchers.chans 0
    × ((ws : Watchers ℕ) × (Watchers.stop told.watchers first ≡ done ws)
        × (lookup 0 ws.watchers ≡ none))
Reach-reading_example = Reach-reading ◌==◌ no_targets told first no_targets-IsStore (
    next (next here (started no_targets watched first started_watch))
      (changed watched told (reading first) (create a_target 5) (ok tt) accepted))
