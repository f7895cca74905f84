-- ===== src/Watch/Watchers/Consistent.antt =====
-- How the registry, its allocator and the channels agree, before and after an operation.
use apiserver_runtime_exampl.Base.{
  ℕ, ◌≡◌, refl, sym, ap, subst, ◌∙◌, inl, inr, ◌≢◌, Bool, true, false, Option, none, some, arith,
  done, Result, ok, err, set, lookup, erase, NodupKeys, lookup-nil, lookup-insert, lookup-erase,
  lookup-insert-some, lookup-erase-some, insert-NodupKeys, erase-NodupKeys, nat_eq,
  get_elem?-set_ne, get_elem?-lt, get_elem?-append_left, get_elem?-append_self, Option-cases,
}
use apiserver_runtime_exampl.Channel.{Chan, Heap, make_chan, IsOpen, close-open}
use apiserver_runtime_exampl.Watch.{Event}
use apiserver_runtime_exampl.Watch.IdAllocator.{
  IdAllocator, IdError, new_id_allocator, allocate_id, release_id, is_allocated,
}
use apiserver_runtime_exampl.Watch.IdAllocator.Partition.{
  IsPartition, new_id_allocator-IsPartition, allocate_id-IsPartition, release_id-IsPartition,
  allocate_id_fresh, allocate_id_failed, release_id_lem,
}
use apiserver_runtime_exampl.Watch.Watchers.{
  WatchCtx, Watchers, new_watchers, get_watch_context, add_with, add, del_found, del,
}

abbrev pub is_some {ℓ} : {A : Type ℓ} → Option A → Bool
is_some none = false
is_some (some a) = true

module _ {ℓ} {T : Type ℓ} where
  -- Exactly the allocated ids are registered, each once and under its own id, and the registered
  -- watchers have open channels, no two the same one.
  pub record IsConsistent (r : Watchers T) : Type ℓ where
    pub ids : IsPartition r.id_allocator
    pub registered : (i : ℕ) → is_allocated r.id_allocator i ≡ is_some (lookup i r.watchers)
    pub unique : NodupKeys r.watchers
    pub own : (i : ℕ) (w : WatchCtx) → lookup i r.watchers ≡ some w → w.id ≡ i
    pub alive : (i : ℕ) (w : WatchCtx) → lookup i r.watchers ≡ some w → IsOpen r.chans w.result_ch
    pub apart :
        (i j : ℕ) (w v : WatchCtx)
        → lookup i r.watchers ≡ some w
        → lookup j r.watchers ≡ some v
        → w.result_ch ≡ v.result_ch
        → i ≡ j

  pub new_watchers-IsConsistent : (n : ℕ) → IsConsistent (new_watchers n)
  unfolding new_watchers is_allocated new_id_allocator
  new_watchers-IsConsistent n = record {
    ids = new_id_allocator-IsPartition n;
    registered = λ i. ground (arith, lookup-nil {V = WatchCtx} i, lookup-nil {V = Bool} i);
    unique = tt;
    own = λ i w found. ground (arith, lookup-nil {V = WatchCtx} i);
    alive = λ i w found. cc (lookup-nil {V = WatchCtx} i);
    apart = λ i j w v found _ _. ground (arith, lookup-nil {V = WatchCtx} i);
  }

  -- The channel of a new context is the only new one.
  pub get_watch_context-IsConsistent :
      (r : Watchers T) → IsConsistent r → IsConsistent (get_watch_context r).0
  unfolding get_watch_context
  get_watch_context-IsConsistent r v = record {
    ids = v.ids;
    registered = v.registered;
    unique = v.unique;
    own = v.own;
    apart = v.apart;
    alive = λ i w found.
        let (c, there, not_closed) = v.alive i w found in
        (
          c,
          get_elem?-append_left r.chans _ w.result_ch (get_elem?-lt r.chans w.result_ch there)
              ∙ there,
          not_closed,
        );
  }

  -- A channel that nobody is registered with, open.
  pub record IsFresh (r : Watchers T) (w : WatchCtx) : Type ℓ where
    pub alive : IsOpen r.chans w.result_ch
    pub unused : (i : ℕ) (v : WatchCtx) → lookup i r.watchers ≡ some v → v.result_ch ≢ w.result_ch

  pub get_watch_context-IsFresh :
      (r : Watchers T) → IsConsistent r → IsFresh (get_watch_context r).0 (get_watch_context r).1
  unfolding get_watch_context
  get_watch_context-IsFresh r v = record {
    alive = (make_chan 10, get_elem?-append_self r.chans (make_chan 10), refl);
    unused = λ i w found same.
        let (c, there, _) = v.alive i w found in
        absurd (omega (arith, get_elem?-lt r.chans w.result_ch there));
  }

  add_with-IsConsistent :
      (r : Watchers T) (w : WatchCtx) (a : IdAllocator × Result IdError ℕ)
      → allocate_id r.id_allocator ≡ a
      → IsConsistent r
      → IsFresh r w
      → IsConsistent (add_with r w a).0
  unfolding add_with
  add_with-IsConsistent r w (a, ok id) e v f =
      let given = allocate_id_fresh r.id_allocator id v.ids (ap (λ p. p.1) e) in
      record {
        ids = subst (λ p. IsPartition p.0) e (allocate_id-IsPartition r.id_allocator v.ids);
        registered = λ i. ground (
          arith,
          ap (λ p. is_allocated p.0 i) e,
          given.2 i,
          v.registered i,
          lookup-insert id i (record w { id = id }) r.watchers,
        );
        unique = insert-NodupKeys id (record w { id = id }) r.watchers v.unique;
        own = λ i u found.
            elim (lookup-insert-some id i (record w { id = id }) u r.watchers found) [
              | inl (same, value) ↦ cc
              | inr (_, old) ↦ v.own i u old
            ];
        alive = λ i u found.
            elim (lookup-insert-some id i (record w { id = id }) u r.watchers found) [
              | inl (same, value) ↦ subst (λ x. IsOpen r.chans x.result_ch) value f.alive
              | inr (_, old) ↦ v.alive i u old
            ];
        apart = λ i j u x found found' shared.
            elim (lookup-insert-some id i (record w { id = id }) u r.watchers found) [
              | inl (same, value) ↦
                  elim (lookup-insert-some id j (record w { id = id }) x r.watchers found') [
                    | inl (same', value') ↦ cc
                    | inr (_, old) ↦ absurd (f.unused j x old (ground arith))
                  ]
              | inr (_, old) ↦
                  elim (lookup-insert-some id j (record w { id = id }) x r.watchers found') [
                    | inl (same, value) ↦ absurd (f.unused i u old (ground arith))
                    | inr (_, old') ↦ v.apart i j u x old old' shared
                  ]
            ];
      }
  add_with-IsConsistent r w (a, err x) e v f =
      let kept : a ≡ r.id_allocator =
        sym (ap (λ p. p.0) e) ∙ allocate_id_failed r.id_allocator x (ap (λ p. p.1) e) in
      record {
        unique = v.unique;
        own = v.own;
        alive = v.alive;
        apart = v.apart;
        ids = subst IsPartition (sym kept) v.ids;
        registered = λ i. ap (λ q. is_allocated q i) kept ∙ v.registered i;
      }

  -- `Add` keeps the registry consistent, also when it fails, if the watcher's channel is open and no
  -- other watcher has it.
  pub add-IsConsistent :
      (r : Watchers T) (w : WatchCtx) → IsConsistent r → IsFresh r w → IsConsistent (add r w).0
  unfolding add
  add-IsConsistent r w v f = add_with-IsConsistent r w (allocate_id r.id_allocator) refl v f

  -- A channel that is closed leaves the others as they were.
  IsOpen-close :
      (h : Heap (Event T)) (r j : ℕ) (c : Chan (Event T))
      → r ≢ j
      → IsOpen h j
      → IsOpen (set h r c) j
  IsOpen-close h r j c other (d, there, alive) = (d, get_elem?-set_ne h r j c other ∙ there, alive)

  del_found-IsConsistent :
      (r : Watchers T) (id : ℕ) (w : WatchCtx)
      → lookup id r.watchers ≡ some w
      → IsConsistent r
      → (r' : Watchers T) × (del_found r id w ≡ done r') × IsConsistent r'
  unfolding del_found
  del_found-IsConsistent r id w there v =
      let (c, found, alive) = v.alive id w there in
      (
        record r {
          id_allocator = (release_id r.id_allocator id).0;
          watchers = erase id r.watchers;
          chans = set r.chans w.result_ch (record c { closed = true });
        },
        rw (close-open r.chans w.result_ch c found alive),
        record {
          ids = release_id-IsPartition r.id_allocator id v.ids;
          registered = λ i. ground (
            arith,
            (release_id_lem r.id_allocator id).2 i,
            v.registered i,
            lookup-erase id i r.watchers,
          );
          unique = erase-NodupKeys id r.watchers v.unique;
          own = λ i u kept. v.own i u (lookup-erase-some id i u r.watchers kept).1;
          alive = λ i u kept.
              let (other, old) = lookup-erase-some id i u r.watchers kept in
              IsOpen-close r.chans w.result_ch u.result_ch (record c { closed = true })
                (λ shared. other (v.apart id i w u there old shared)) (v.alive i u old);
          apart = λ i j u x kept kept' shared.
              v.apart i j u x (lookup-erase-some id i u r.watchers kept).1
                (lookup-erase-some id j x r.watchers kept').1 shared;
        },
      )

  -- On a consistent registry `Del` returns and leaves it consistent, whatever the id: a registered
  -- watcher's channel is never closed twice.
  pub del-IsConsistent :
      (r : Watchers T) (id : ℕ)
      → IsConsistent r
      → (r' : Watchers T) × (del r id ≡ done r') × IsConsistent r'
  unfolding del
  del-IsConsistent r id v = elim (Option-cases (lookup id r.watchers)) [
    | inl e ↦ (r, rw (e, del), v)
    | inr (w, e) ↦
        let (r', same, v') = del_found-IsConsistent r id w e v in (r', rw (e, del) same, v')
  ]
