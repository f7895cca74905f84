-- ===== src/Config/TargetWatcher/Reading.antt =====
-- While the goroutine reads, its watch is registered and its channel is open.
use apiserver_runtime_exampl.Base.{
  ◌≡◌, refl, sym, ap, ◌∙◌, subst, inl, inr, Bool, false, Bool-cases, none, some, List, arith, done,
  done-injective, Result, ok, err, get_elem?, lookup, nat_eq, length, dec_lt, ≟_refl,
}
use apiserver_runtime_exampl.Channel.{Chan, IsOpen}
use apiserver_runtime_exampl.Watch.{Event}
use apiserver_runtime_exampl.Watch.Watchers
use apiserver_runtime_exampl.Watch.Watchers.{WatchCtx, Watchers}
use apiserver_runtime_exampl.Watch.Watchers.Consistent.{IsConsistent}
use apiserver_runtime_exampl.Watch.Watchers.Added.{replaced-IsConsistent}
use apiserver_runtime_exampl.Watch.Watchers.Stop.{stop_registered}
use apiserver_runtime_exampl.Store.Contract.{StoreError}
use apiserver_runtime_exampl.Store.Memory
use apiserver_runtime_exampl.Store.Memory.{Mem, run_call}
use apiserver_runtime_exampl.Store.Memory.Refines.{IsStore, run_call-Meets}
use apiserver_runtime_exampl.Store.Memory.Watching.{watch-waits, watch-returns, watch-exhausted}
use apiserver_runtime_exampl.Config.TargetWatcher.{
  Phase, opening, sleeping, stopped, reading, World, world, taken, Step, started, refused, woken,
  received, closed, cancelled, changed,
}

module _ {ℓ} {T : Type ℓ} where
  -- Whatever `Watch` came back with, the store is consistent; a watcher it returned is registered.
  abbrev Answered : Mem T → Result StoreError WatchCtx → Type ℓ
  Answered r' (err e) = IsStore r'
  Answered r' (ok w) = IsStore r' × (lookup w.id r'.watchers.watchers ≡ some w)

  watch-Answered :
      (r r' : Mem T) (res : Result StoreError WatchCtx)
      → IsStore r
      → Memory.watch r ≡ done (r', res)
      → Answered r' res
  watch-Answered r r' res v ran = elim (Bool-cases (Watchers.is_exhausted r.watchers)) [
    | inl full ↦
        let same = done-injective (sym (watch-exhausted r full) ∙ ran) in
        subst (λ a. Answered a.0 a.1) same v
    | inr free ↦ elim (dec_lt 10 (length r.db)) [
      | yes big ↦ let wrong = sym (watch-waits r v free big) ∙ ran in cc
      | no few ↦
          let (q, w, returned, _, valid, after) = watch-returns r v free (omega arith) in
          let same = done-injective (sym returned ∙ ran) in
          subst (λ a. Answered a.0 a.1) same (valid, after.entries w.id ∙ rw (≟_refl w.id) refl)
    ]
  ]

  abbrev HasWatch : Mem T → Phase → Type 0
  HasWatch r (reading w) = lookup w.id r.watchers.watchers ≡ some w
  HasWatch r opening = Unit
  HasWatch r sleeping = Unit
  HasWatch r stopped = Unit

  abbrev IsWatching : World T → Type ℓ
  IsWatching x = IsStore x.store × HasWatch x.store x.phase

  HasWatch-same :
      (r r' : Mem T) (p : Phase)
      → r'.watchers.watchers ≡ r.watchers.watchers
      → HasWatch r p
      → HasWatch r' p
  HasWatch-same r r' (reading w) same h = ap (λ ws. lookup w.id ws) same ∙ h
  HasWatch-same r r' opening same h = tt
  HasWatch-same r r' sleeping same h = tt
  HasWatch-same r r' stopped same h = tt

  taken-IsStore :
      (r : Mem T) (w : WatchCtx) (c : Chan (Event T)) (es : List (Event T))
      → get_elem? r.watchers.chans w.result_ch ≡ some c
      → lookup w.id r.watchers.watchers ≡ some w
      → IsStore r
      → IsStore (taken r w c es)
  taken-IsStore r w c es there held v =
      let (d, found, alive) = v.consistent.alive w.id w held in
      let same : d ≡ c = cc in
      record {
        unique = v.unique;
        consistent =
            replaced-IsConsistent r.watchers w.result_ch (record c { buffer = es }) c there
              (subst (λ x. x.closed ≡ false) same alive) v.consistent;
      }

  module _ (deep_equal : T → T → Bool) where
    Step-IsWatching : {x y : World T} → Step deep_equal x y → IsWatching x → IsWatching y
    Step-IsWatching (started r r' w ran) (v, _) = watch-Answered r r' (ok w) v ran
    Step-IsWatching (refused r r' e ran) (v, _) = (watch-Answered r r' (err e) v ran, tt)
    Step-IsWatching (woken r) (v, _) = (v, tt)
    Step-IsWatching (received r w c e es there buffer) (v, held) =
        (taken-IsStore r w c es there held v, held)
    Step-IsWatching (closed r w c there buffer is_closed) (v, held) = (v, tt)
    Step-IsWatching (cancelled r w ws ran) (v, held) =
        let (ws', same, valid, _, _) = stop_registered r.watchers w w v.consistent held in
        (
          record {
            unique = v.unique;
            consistent = subst IsConsistent (done-injective (sym same ∙ ran)) valid;
          },
          tt,
        )
    Step-IsWatching (changed r r' p call res ran) (v, held) =
        let (valid, _, _, told) = run_call-Meets deep_equal r r' call res v ran in
        (valid, HasWatch-same r r' p told.same held)

    -- The worlds that the steps lead to.
    pub data Reach (x : World T) : World T → Type ℓ where
      here : Reach x x
      next : {y z : World T} → Reach x y → Step deep_equal y z → Reach x z

    Reach-IsWatching : {x y : World T} → Reach x y → IsWatching x → IsWatching y
    Reach-IsWatching here v = v
    Reach-IsWatching (next before step) v = Step-IsWatching step (Reach-IsWatching before v)

    -- From a consistent store, and whatever others create, update and delete in it in between: while the goroutine reads, its
    -- watch is registered and its channel is open, so the branch of a closed channel is never taken;
    -- and when its context is done, `Stop` returns and the watch is no longer registered.
    pub Reach-reading :
        (start r : Mem T) (w : WatchCtx)
        → IsStore start
        → Reach (world start opening) (world r (reading w))
        → (lookup w.id r.watchers.watchers ≡ some w)
          × IsOpen r.watchers.chans w.result_ch
          × ((ws : Watchers T) × (Watchers.stop r.watchers w ≡ done ws)
              × (lookup w.id ws.watchers ≡ none))
    Reach-reading start r w v path =
        let (valid, held) = Reach-IsWatching path (v, tt) in
        let (ws, stops, _, gone, _) = stop_registered r.watchers w w valid.consistent held in
        (held, valid.consistent.alive w.id w held, (ws, stops, gone w.id ∙ rw (≟_refl w.id) refl))
