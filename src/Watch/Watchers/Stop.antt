-- ===== src/Watch/Watchers/Stop.antt =====
-- `Stop`, once and again.
use apiserver_runtime_exampl.Base.{
  ℕ, ◌≡◌, refl, subst, sym, ◌∙◌, true, none, some, done, done-injective, get_elem?,
  get_elem?-set_self, get_elem?-lt, lookup, lookup-erase, nat_eq, if◌then◌else◌, ◌≟◌, set, erase,
}
use apiserver_runtime_exampl.Channel.{Chan, close-open}
use apiserver_runtime_exampl.Watch.{Event}
use apiserver_runtime_exampl.Watch.IdAllocator.{release_id}
use apiserver_runtime_exampl.Watch.Watchers.{WatchCtx, Watchers, del, del_found, stop}
use apiserver_runtime_exampl.Watch.Watchers.Consistent.{IsConsistent, del-IsConsistent}

module _ {ℓ} {T : Type ℓ} where
  -- In a consistent registry, whoever is registered under the id of `w` is removed by `w.Stop()`, and its channel is closed,
  -- be it `w` or a watcher that was given the same id later.
  pub stop_registered :
      (r : Watchers T) (w v : WatchCtx)
      → IsConsistent r
      → lookup w.id r.watchers ≡ some v
      → (r' : Watchers T) × (stop r w ≡ done r')
        × IsConsistent r'
        × ((j : ℕ) → lookup j r'.watchers ≡ (if w.id ≟ j then none else lookup j r.watchers))
        × ((c : Chan (Event T)) × (get_elem? r'.chans v.result_ch ≡ some c) × (c.closed ≡ true))
  unfolding stop del_found
  stop_registered r w v k found =
      let (r', same, k') = del-IsConsistent r w.id k in
      let (c, there, alive) = k.alive w.id v found in
      let c' : Chan (Event T) = record c { closed = true } in
      let after : Watchers T = record r {
        id_allocator = (release_id r.id_allocator w.id).0;
        watchers = erase w.id r.watchers;
        chans = set r.chans v.result_ch c';
      } in
      let stops : del r w.id ≡ done after =
        rw (found, del) (rw (close-open r.chans v.result_ch c there alive)) in
      (
        after,
        stops,
        subst IsConsistent (done-injective (sym same ∙ stops)) k',
        λ j. lookup-erase w.id j r.watchers,
        (
          c',
          get_elem?-set_self r.chans v.result_ch c' (get_elem?-lt r.chans v.result_ch there),
          refl,
        ),
      )

  -- A second `Stop` with nobody registered under the id changes nothing.
  pub stop_unregistered :
      (r : Watchers T) (w : WatchCtx) → lookup w.id r.watchers ≡ none → stop r w ≡ done r
  unfolding stop
  stop_unregistered r w gone = rw (gone, del)
