-- ===== src/Reconciler/Loop/Deleted.antt =====
-- pkg/reconcilers/target/reconciler.go, `Reconcile` of a target that is being deleted.
use apiserver_runtime_exampl.Base.{
  ℕ, ◌≡◌, refl, sym, ap, ◌∙◌, subst, inl, inr, Bool-cases, Bool, true, false, Option, none, some,
  done, >>=-eq-done, done-injective, Result, ok, err, ≟_refl,
}
use apiserver_runtime_exampl.Store.Key.{Key, key_eq, key_string, get_nsn_key, get_name_key}
use apiserver_runtime_exampl.Store.Contract
use apiserver_runtime_exampl.Store.Contract.{StoreError, View, delete_spec}
use apiserver_runtime_exampl.Store.Memory
use apiserver_runtime_exampl.Store.Memory.{Mem, run_call}
use apiserver_runtime_exampl.Store.Memory.Refines.{
  view, IsStore, run_call-Meets, get-missing, view-get,
}
use apiserver_runtime_exampl.Target.Context.{Context}
use apiserver_runtime_exampl.Resource.Finalizer.Api.{Object, UpdateFailed, api_remove_finalizer}
use apiserver_runtime_exampl.Reconciler.Servers.{change_targets}
use apiserver_runtime_exampl.Reconciler.DataStore.{DataStoreRequest}
use apiserver_runtime_exampl.Reconciler.Loop.{
  TargetState, Services, State, Answer, ReconcileError, cannot_delete, finalizer, finalized,
  remove_from, drop_target, data_store_deleted, delete_data_store, delete_at, delete_target,
  reconcile_target, reconcile_got, reconcile,
}

-- A key that was deleted has no object.
delete_spec-none :
    {T : Type 0} (s : View T) (k : Key) (o : Option T)
    → s k ≡ o
    → (delete_spec s k o).state k ≡ none
delete_spec-none s k none h = h
delete_spec-none s k (some x) h = rw (≟_refl k) refl

module _ {W E F C S : Type 0} (services : Services W E F C S) where
  -- The last call took the finalizer from the target, and went well.
  abbrev pub IsFinalized : Object TargetState → State W C S → Type 0
  IsFinalized cr s' =
      (w : W) × (cr' : Object TargetState) × (api_remove_finalizer services.client_update
          services.is_not_found finalizer w cr
        ≡ done (s'.world, cr', none))

  finalized-ok :
      (s s' : State W C S) (reply : W × Object TargetState × Option (UpdateFailed E))
      → finalized services s reply ≡ done (s', false, none)
      → (s' ≡ record s { world = reply.0 }) × (reply.2 ≡ none)
  unfolding finalized
  finalized-ok s s' (w, cr, none) ran = (sym (ap (λ x. x.0) (done-injective ran)), refl)
  finalized-ok s s' (w, cr, some e) ran = let wrong = ap (λ x. x.1) (done-injective ran) in cc

  remove_from-ok :
      (s s' : State W C S) (cr : Object TargetState)
      → remove_from services s cr ≡ done (s', false, none)
      → (s'.target_store ≡ s.target_store) × IsFinalized cr s'
  unfolding remove_from
  remove_from-ok s s' cr ran =
      let (reply, called, rest) =
        >>=-eq-done
          (api_remove_finalizer services.client_update services.is_not_found finalizer s.world cr) _
          ran in
      let (after, no_error) = finalized-ok s s' reply rest in
      (
        ap (λ x. x.target_store) after,
        (
          s.world,
          reply.1,
          called ∙ ap done (λ i. (ap (λ x. x.world) (sym after) i, reply.1, no_error i)),
        ),
      )

  -- A target that left the store, and whose finalizer is gone.
  abbrev pub HasEnded : State W C S → Key → Object TargetState → Type 0
  HasEnded s' key cr = (view s'.target_store key ≡ none) × IsFinalized cr s'

  drop_target-ok :
      (s s' : State W C S) (cr : Object TargetState) (key : Key)
      → IsStore s.target_store
      → drop_target services s cr key ≡ done (s', false, none)
      → HasEnded s' key cr
  unfolding drop_target
  drop_target-ok s s' cr key v ran =
      let ((q, res), called, rest) =
        >>=-eq-done (run_call services.same_target s.target_store (Contract.delete key)) _ ran in
      let (_, views, _, _) =
        run_call-Meets services.same_target s.target_store q (Contract.delete key) res v called in
      let (same, fin) = remove_from-ok (record s { target_store = q }) s' cr rest in
      (
        ap (λ r. view r key) same
            ∙ views key
            ∙ delete_spec-none (view s.target_store) key (view s.target_store key) refl,
        fin,
      )

  data_store_deleted-ok :
      (s s' : State W C S) (cr : Object TargetState) (key : Key) (answer : W × Option F)
      → IsStore s.target_store
      → data_store_deleted services s cr key answer ≡ done (s', false, none)
      → HasEnded s' key cr
  unfolding data_store_deleted
  data_store_deleted-ok s s' cr key (w, none) v ran =
      drop_target-ok (record s { world = w }) s' cr key v ran
  data_store_deleted-ok s s' cr key (w, some f) v ran =
      elim (Bool-cases (services.server.is_unknown f)) [
        | inl unknown ↦ drop_target-ok (record s { world = w }) s' cr key v (rw unknown at ran)
        | inr known ↦ let wrong = ap (λ x. x.1) (done-injective (rw known at ran)) in cc
      ]

  delete_data_store-ok :
      (s s' : State W C S) (cr : Object TargetState) (key : Key) (c : ℕ)
      (req : Option DataStoreRequest)
      → IsStore s.target_store
      → delete_data_store services s cr key c req ≡ done (s', false, none)
      → HasEnded s' key cr
  unfolding delete_data_store
  delete_data_store-ok s s' cr key c none v ran = drop_target-ok s s' cr key v ran
  delete_data_store-ok s s' cr key c (some req) v ran =
      data_store_deleted-ok s s' cr key
        (services.server.delete_data_store s.world c (key_string key)) v ran

  delete_at-ok :
      (s s' : State W C S) (cr : Object TargetState) (key : Key) (req : Option DataStoreRequest)
      (client : Option ℕ)
      → IsStore s.target_store
      → delete_at services s cr key req client ≡ done (s', false, none)
      → HasEnded s' key cr
  unfolding delete_at
  delete_at-ok s s' cr key req none v ran = cc
  delete_at-ok s s' cr key req (some c) v ran =
      let (servers, _, rest) =
        >>=-eq-done
          (change_targets services.same_server services.delete s.data_server_store
            (get_name_key (services.get_address c)) key)
          _ ran in
      delete_data_store-ok (record s { data_server_store = servers }) s' cr key c req v rest

  delete_target-ok :
      (s s' : State W C S) (cr : Object TargetState) (key : Key)
      (m : Result StoreError (Context DataStoreRequest))
      → IsStore s.target_store
      → Memory.get s.target_store key ≡ m
      → delete_target services s cr key m ≡ done (s', false, none)
      → HasEnded s' key cr
  unfolding delete_target
  delete_target-ok s s' cr key (ok tctx) v there ran =
      delete_at-ok s s' cr key tctx.data_store tctx.client v ran
  delete_target-ok s s' cr key (err e) v there ran =
      let (same, fin) = remove_from-ok s s' cr ran in
      (ap (λ r. view r key) same ∙ get-missing s.target_store key there, fin)

  -- A loop without an error, of a target that is being deleted: the target has no context any more,
  -- and the last call took its finalizer.
  pub reconcile-deleted :
      (s s' : State W C S) (req : Key) (cr : Object TargetState)
      → IsStore s.target_store
      → services.get_target s.world (get_nsn_key req) ≡ ok cr
      → cr.rest.deleting ≡ true
      → reconcile services s req ≡ done (s', false, none)
      → HasEnded s' (get_nsn_key req) cr
  unfolding reconcile reconcile_got reconcile_target
  reconcile-deleted s s' req cr v got deleting ran =
      delete_target-ok s s' cr (get_nsn_key req) (Memory.get s.target_store (get_nsn_key req)) v
        refl
        (subst (λ b. reconcile_target services s (get_nsn_key req) cr b ≡ done (s', false, none))
          deleting (rw got at ran))

  -- When the data server refuses to delete the data store, the target keeps its context, its
  -- finalizer is not touched, and the loop runs again.
  pub reconcile-refused :
      (s s' : State W C S) (req : Key) (cr : Object TargetState) (tctx : Context DataStoreRequest)
      (c : ℕ) (ds : DataStoreRequest) (w : W) (f : F) {again : Bool}
      {e : Option (ReconcileError E F)}
      → services.get_target s.world (get_nsn_key req) ≡ ok cr
      → cr.rest.deleting ≡ true
      → view s.target_store (get_nsn_key req) ≡ some tctx
      → tctx.client ≡ some c
      → tctx.data_store ≡ some ds
      → services.server.delete_data_store s.world c (key_string (get_nsn_key req)) ≡ (w, some f)
      → services.server.is_unknown f ≡ false
      → reconcile services s req ≡ done (s', again, e)
      → (s'.target_store ≡ s.target_store)
        × (s'.world ≡ w)
        × (again ≡ true)
        × (e ≡ some (cannot_delete f))
  unfolding reconcile reconcile_got reconcile_target delete_target delete_at delete_data_store
      data_store_deleted
  reconcile-refused s s' req cr tctx c ds w f {again} {e} got deleting there client stored refused
        known ran =
      let key = get_nsn_key req in
      let Ends : Answer W E F C S → Type 0 = λ m. m ≡ done (s', again, e) in
      let target =
        subst (λ b. Ends (reconcile_target services s key cr b)) deleting (rw got at ran) in
      let found =
        subst (λ m. Ends (delete_target services s cr key m)) (view-get s.target_store key there)
          target in
      let connected =
        subst (λ q. Ends (delete_at services s cr key q (some c))) stored
          (subst (λ q. Ends (delete_at services s cr key tctx.data_store q)) client found) in
      let (servers, _, rest) =
        >>=-eq-done
          (change_targets services.same_server services.delete s.data_server_store
            (get_name_key (services.get_address c)) key)
          _ connected in
      let ended = rw known at (
        subst
          (λ m.
            Ends (data_store_deleted services (record s { data_server_store = servers }) cr key m))
          refused rest) in
      let both = done-injective ended in
      (
        sym (ap (λ x. x.0.target_store) both),
        sym (ap (λ x. x.0.world) both),
        sym (ap (λ x. x.1) both),
        sym (ap (λ x. x.2) both),
      )
