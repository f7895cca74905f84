-- ===== src/Reconciler/Servers/Assignment.antt =====
-- What changes when a target is assigned to a data server, or no longer is.
use apiserver_runtime_exampl.Base.{
  ◌≡◌, sym, ap, ◌∙◌, Bool, some, Text, done, >>=-eq-done, done-injective, subst,
}
use apiserver_runtime_exampl.Store.Key.{Key, key_eq, key_string}
use apiserver_runtime_exampl.Store.Contract
use apiserver_runtime_exampl.Store.Contract.{put}
use apiserver_runtime_exampl.Store.Memory.{Mem, run_call}
use apiserver_runtime_exampl.Store.Memory.Refines.{view, IsStore, run_call-Meets, view-get}
use apiserver_runtime_exampl.Reconciler.Servers.{DsContext, change_found, change_targets}

module _ {C S : Type 0} (deep_equal : DsContext C S → DsContext C S → Bool) (change : S → Text → S)
    (r : Mem (DsContext C S)) (ds_key target_key : Key) where
  -- A target that is assigned to a registered data server, or taken from it, changes that server's
  -- set of targets and nothing else, if the call returns.
  pub change_targets_lem :
      (r' : Mem (DsContext C S)) (d : DsContext C S)
      → IsStore r
      → view r ds_key ≡ some d
      → change_targets deep_equal change r ds_key target_key ≡ done r'
      → IsStore r'
        × ((j : Key)
            → view r' j
              ≡ put
                  (view r)
                  ds_key
                  (record d { targets = change d.targets (key_string target_key) })
                  j)
  unfolding change_targets change_found
  change_targets_lem r' d v there ran =
      let d' = record d { targets = change d.targets (key_string target_key) } in
      let ((q, res), called, same) =
        >>=-eq-done (run_call deep_equal r (Contract.update ds_key d')) (λ answer. done answer.0)
          (rw (view-get r ds_key there) at ran) in
      let (valid, views, _, _) =
        run_call-Meets deep_equal r q (Contract.update ds_key d') res v called in
      let after = done-injective same in
      (subst IsStore after valid, λ j. ap (λ p. view p j) (sym after) ∙ views j ∙ rw there)
