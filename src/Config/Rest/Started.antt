-- ===== src/Config/Rest/Started.antt =====
-- pkg/config/config.go, `NewProvider`: the storage and its goroutine at the start.
use apiserver_runtime_exampl.Base.{
  ◌≡◌, ap, sym, subst, ok-injective, Bool, some, lookup, nat_eq, Result, ok, err,
}
use apiserver_runtime_exampl.Channel.{IsOpen}
use apiserver_runtime_exampl.Watch.Watchers.{WatchCtx}
use apiserver_runtime_exampl.Watch.Watchers.Consistent.{IsConsistent, new_watchers-IsConsistent}
use apiserver_runtime_exampl.Store.Memory.{Mem}
use apiserver_runtime_exampl.Store.Memory.Refines.{IsStore}
use apiserver_runtime_exampl.Target.Context.{Context}
use apiserver_runtime_exampl.Config.Keys.{Object}
use apiserver_runtime_exampl.Config.TargetWatcher.{reading, World, world}
use apiserver_runtime_exampl.Config.TargetWatcher.Reading.{Reach, Reach-reading}
use apiserver_runtime_exampl.Config.Rest.{Cfg, new_config_rest, new_provider}

module _ {D W E C : Type 0} (deep_equal : Context D → Context D → Bool) where
  -- A storage that `NewProvider` made has a consistent registry of its own, and while the goroutine
  -- that it started reads, its watch of the target store is registered and open.
  pub new_provider-started :
      (codec : Result E C) (store : Mem Object) (targets : Mem (Context D)) (ns : Bool) (device : W)
      (r : Cfg D W) (start : World (Context D))
      → IsStore targets
      → new_provider codec store targets ns device ≡ ok (r, start)
      → IsConsistent r.watchers
        × ((q : Mem (Context D)) (w : WatchCtx)
            → Reach deep_equal start (world q (reading w))
            → (lookup w.id q.watchers.watchers ≡ some w) × IsOpen q.watchers.chans w.result_ch)
  unfolding new_provider new_config_rest
  new_provider-started (err e) store targets ns device r start v made = cc
  new_provider-started (ok codec) store targets ns device r start v made =
      let same = ok-injective made in
      (
        subst (λ x. IsConsistent x.0.watchers) same (new_watchers-IsConsistent 32),
        λ q w path.
            let (held, alive, _) = Reach-reading deep_equal targets q w v (
              subst (λ x. Reach deep_equal x (world q (reading w))) (ap (λ x. x.1) (sym same))
                path) in
            (held, alive),
      )
