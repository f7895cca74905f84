-- ===== src/Watch/Watchers/Added.antt =====
-- A context that gets its first events and is then added, as both stores do it.
use apiserver_runtime_exampl.Base.{
  ℕ, ◌≤◌, ◌<◌, ◌≡◌, refl, sym, subst, ap, ◌∙◌, false, none, some, List, [], ◌∷◌, ◌++◌, arith,
  if◌then◌else◌, Outcome, done, blocked, ◌>>=◌, Result, ok, length, get_elem?, set, ◌≟◌, lookup,
  insert, lookup-insert, nat_eq, ℕ_discrete, get_elem?-set_self, get_elem?-set_ne, get_elem?-lt,
  get_elem?-append_left, get_elem?-append_self,
}
use apiserver_runtime_exampl.Channel.{Chan, Heap, IsOpen, make_chan, pending, pending_of}
use apiserver_runtime_exampl.Channel.Burst.{send_all, send_all-fits, send_all-overflows}
use apiserver_runtime_exampl.Watch.{Event}
use apiserver_runtime_exampl.Watch.IdAllocator.{IdError, allocate_id}
use apiserver_runtime_exampl.Watch.IdAllocator.Partition.{allocate_id_fresh, allocate_id-returns}
use apiserver_runtime_exampl.Watch.Watchers.{
  WatchCtx, Watchers, get_watch_context, is_exhausted, add_with, add,
}
use apiserver_runtime_exampl.Watch.Watchers.Consistent.{
  IsConsistent, IsFresh, get_watch_context-IsConsistent, get_watch_context-IsFresh,
  add-IsConsistent,
}

module _ {ℓ} {T : Type ℓ} where
  -- An open channel in the place of an open one.
  replaced-IsOpen :
      (h : Heap (Event T)) (j i : ℕ) (c d : Chan (Event T))
      → get_elem? h j ≡ some d
      → c.closed ≡ false
      → IsOpen h i
      → IsOpen (set h j c) i
  replaced-IsOpen h j i c d there alive (b, at_i, open_i) = elim (ℕ_discrete j i) [
    | yes same ↦ (
      c,
      ap (get_elem? (set h j c)) (sym same) ∙ get_elem?-set_self h j c (get_elem?-lt h j there),
      alive,
    )
    | no other ↦ (b, get_elem?-set_ne h j i c other ∙ at_i, open_i)
  ]

  module _ (r : Watchers T) (j : ℕ) (c d : Chan (Event T)) (there : get_elem? r.chans j ≡ some d)
      (alive : c.closed ≡ false) where
    pub replaced-IsConsistent : IsConsistent r → IsConsistent (record r { chans = set r.chans j c })
    replaced-IsConsistent v = record {
      ids = v.ids;
      registered = v.registered;
      unique = v.unique;
      own = v.own;
      apart = v.apart;
      alive =
          λ i w found. replaced-IsOpen r.chans j w.result_ch c d there alive (v.alive i w found);
    }

    pub replaced-IsFresh :
        (w : WatchCtx) → IsFresh r w → IsFresh (record r { chans = set r.chans j c }) w
    replaced-IsFresh w f = record {
      alive = replaced-IsOpen r.chans j w.result_ch c d there alive f.alive;
      unused = f.unused;
    }

  -- `GetWatchContext`, the first events, `Add`.
  abbrev pub opened :
      Watchers T × WatchCtx → List (Event T) → Outcome (Watchers T × Result IdError WatchCtx)
  opened (ws, w) evs = do
    chans ← send_all ws.chans w.result_ch evs
    done (add (record ws { chans = chans }) w)

  -- More events than the channel's ten places: nobody can read them yet, and the call waits.
  pub opened-waits :
      (r : Watchers T) (evs : List (Event T))
      → 10 < length evs
      → opened (get_watch_context r) evs ≡ blocked
  unfolding get_watch_context
  opened-waits r evs big = rw (
      send_all-overflows (r.chans ++ make_chan 10 ∷ []) (length r.chans) evs (make_chan 10)
        (get_elem?-append_self r.chans (make_chan 10)) refl (omega arith) (omega arith))

  -- The registry with one more watcher, whose channel holds the first events.
  pub record Opened (r r' : Watchers T) (w : WatchCtx) (evs : List (Event T)) : Type ℓ where
    pub consistent : IsConsistent r'
    pub fresh : lookup w.id r.watchers ≡ none
    pub entries :
        (i : ℕ) → lookup i r'.watchers ≡ (if w.id ≟ i then some w else lookup i r.watchers)
    pub first : pending r'.chans w.result_ch ≡ evs
    pub others : (j : ℕ) → j < length r.chans → pending r'.chans j ≡ pending r.chans j

  add-ok :
      (r : Watchers T) (w : WatchCtx) (id : ℕ)
      → (allocate_id r.id_allocator).1 ≡ ok id
      → add r w ≡ (
        record r {
          id_allocator = (allocate_id r.id_allocator).0;
          watchers = insert id (record w { id = id }) r.watchers;
        },
        ok (record w { id = id }),
      )
  unfolding add add_with
  add-ok r w id given = ap (λ x. add_with r w ((allocate_id r.id_allocator).0, x)) given

  pub opened-returns :
      (r : Watchers T) (evs : List (Event T))
      → IsConsistent r
      → is_exhausted r ≡ false
      → length evs ≤ 10
      → (r' : Watchers T) × (w : WatchCtx) × (opened (get_watch_context r) evs ≡ done (r', ok w))
        × Opened r r' w evs
  unfolding get_watch_context is_exhausted
  opened-returns r evs v free small =
      let made : Chan (Event T) = make_chan 10 in
      let n = length r.chans in
      let filled : Chan (Event T) = record made { buffer = evs } in
      let h : Heap (Event T) = r.chans ++ made ∷ [] in
      let there : get_elem? h n ≡ some made = get_elem?-append_self r.chans made in
      let (id, given) = allocate_id-returns r.id_allocator free in
      let (unallocated, _, _) = allocate_id_fresh r.id_allocator id v.ids given in
      let base : Watchers T = record (get_watch_context r).0 { chans = set h n filled } in
      let w : WatchCtx = (get_watch_context r).1 in
      let w' : WatchCtx = record w { id = id } in
      let adds = add-ok base w id given in
      let kept =
        add-IsConsistent base w
          (replaced-IsConsistent (get_watch_context r).0 n filled made there refl
            (get_watch_context-IsConsistent r v))
          (replaced-IsFresh (get_watch_context r).0 n filled made there refl w
            (get_watch_context-IsFresh r v)) in
      let registered = v.registered id in
      (
        record base {
          id_allocator = (allocate_id r.id_allocator).0;
          watchers = insert id w' r.watchers;
        },
        w',
        rw (send_all-fits h n evs made there refl (omega arith)) (ap done adds),
        record {
          consistent = subst (λ p. IsConsistent p.0) adds kept;
          fresh = ground (arith, registered, unallocated);
          entries = λ i. lookup-insert id i w' r.watchers;
          first = ap pending_of (get_elem?-set_self h n filled (get_elem?-lt h n there));
          others = λ j below. ap pending_of (
              get_elem?-set_ne h n j filled (λ e. absurd (omega arith))
              ∙ get_elem?-append_left r.chans (made ∷ []) j below);
        },
      )
