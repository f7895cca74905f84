-- ===== src/Watch/Tests.antt =====
-- Runs of the registry, and the theorems about it at these runs.
use apiserver_runtime_exampl.Base.{
  ℕ, suc, ◌≤◌, ◌≡◌, refl, true, false, some, none, [], ◌∷◌, done, lookup, insert, nat_eq,
  ℕ_discrete, get_elem?, set, if◌then◌else◌, ◌≟◌,
}
use apiserver_runtime_exampl.Channel.{Chan, make_chan}
use apiserver_runtime_exampl.Watch.{Event, added}
use apiserver_runtime_exampl.Watch.IdAllocator.{new_id_allocator, allocate_id}
use apiserver_runtime_exampl.Watch.Watchers.{
  WatchCtx, Watchers, new_watchers, get_watch_context, len, is_exhausted, add, del, stop,
}
use apiserver_runtime_exampl.Watch.Watchers.Consistent.{
  IsConsistent, new_watchers-IsConsistent, get_watch_context-IsConsistent,
  get_watch_context-IsFresh, add-IsConsistent, del-IsConsistent,
}
use apiserver_runtime_exampl.Watch.Watchers.Added.{replaced-IsConsistent}
use apiserver_runtime_exampl.Watch.Watchers.Bounded.{watchers-bounded}
use apiserver_runtime_exampl.Watch.Watchers.Stop.{stop_registered}

-- A registry with one watcher.
abbrev idle : Watchers ℕ
idle = new_watchers 1

abbrev made : Watchers ℕ × WatchCtx
made = get_watch_context idle

made-IsConsistent : IsConsistent made.0
made-IsConsistent = get_watch_context-IsConsistent idle (new_watchers-IsConsistent 1)

abbrev one : Watchers ℕ
one = (add made.0 made.1).0

one-IsConsistent : IsConsistent one
one-IsConsistent =
    add-IsConsistent made.0 made.1 made-IsConsistent
      (get_watch_context-IsFresh idle (new_watchers-IsConsistent 1))

abbrev first_ctx : WatchCtx
first_ctx = record { result_ch = 0; id = 0 }

one_registered : lookup 0 one.watchers ≡ some first_ctx
unfolding new_watchers new_id_allocator get_watch_context add allocate_id lookup insert nat_eq
    ℕ_discrete
one_registered = refl

abbrev seven : Event ℕ
seven = record { event_type = added; object = 7 }

add-IsConsistent_example : IsConsistent (add made.0 made.1).0
add-IsConsistent_example =
    add-IsConsistent made.0 made.1 made-IsConsistent
      (get_watch_context-IsFresh idle (new_watchers-IsConsistent 1))

del-IsConsistent_example : (r' : Watchers ℕ) × (del one 0 ≡ done r') × IsConsistent r'
del-IsConsistent_example = del-IsConsistent one 0 one-IsConsistent

abbrev told : Watchers ℕ
told = record one { chans = record { buffer = seven ∷ []; capacity = 10; closed = false } ∷ [] }

stop_registered_example :
    (r' : Watchers ℕ) × (stop one first_ctx ≡ done r')
    × IsConsistent r'
    × ((j : ℕ) → lookup j r'.watchers ≡ (if 0 ≟ j then none else lookup j one.watchers))
    × ((c : Chan (Event ℕ)) × (get_elem? r'.chans 0 ≡ some c) × (c.closed ≡ true))
stop_registered_example = stop_registered one first_ctx first_ctx one-IsConsistent one_registered

-- Its channel with ten events in it.
abbrev ten_events : Chan (Event ℕ)
ten_events = record {
  buffer = seven ∷ seven ∷ seven ∷ seven ∷ seven ∷ seven ∷ seven ∷ seven ∷ seven ∷ seven ∷ [];
  capacity = 10;
  closed = false;
}

abbrev full : Watchers ℕ
full = record one { chans = set one.chans 0 ten_events }

full-IsConsistent : IsConsistent full
unfolding new_watchers new_id_allocator get_watch_context add allocate_id
full-IsConsistent = replaced-IsConsistent one 0 ten_events (make_chan 10) refl refl one-IsConsistent

watchers-bounded_example :
    (len one ≤ suc one.id_allocator.max_id)
    × (is_exhausted one ≡ true → len one ≡ suc one.id_allocator.max_id)
watchers-bounded_example = watchers-bounded one one-IsConsistent
