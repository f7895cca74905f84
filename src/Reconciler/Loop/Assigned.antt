-- ===== src/Reconciler/Loop/Assigned.antt =====
-- pkg/reconcilers/target/reconciler.go, `Reconcile` of a target that is not being deleted.
use apiserver_runtime_exampl.Base.{
  ℕ, ◌≡◌, refl, sym, ap, ◌∙◌, subst, inl, inr, false, Bool-cases, Option, none, some, done,
  >>=-eq-done, done-injective, Result, ok, err, ≟_refl,
}
use apiserver_runtime_exampl.Store.Key.{Key, key_eq, key_string, get_nsn_key, get_name_key}
use apiserver_runtime_exampl.Store.Contract
use apiserver_runtime_exampl.Store.Contract.{StoreError, View, put, create_spec}
use apiserver_runtime_exampl.Store.Memory
use apiserver_runtime_exampl.Store.Memory.{Mem, run_call}
use apiserver_runtime_exampl.Store.Memory.Refines.{
  view, IsStore, run_call-Meets, get-missing, get-view,
}
use apiserver_runtime_exampl.Target.Context.{Context}
use apiserver_runtime_exampl.Resource.Finalizer.{finalizer_exists}
use apiserver_runtime_exampl.Resource.Finalizer.Api.{Object, UpdateFailed, api_add_finalizer}
use apiserver_runtime_exampl.Reconciler.Servers.{DsContext, select_data_server_context}
use apiserver_runtime_exampl.Reconciler.Servers.Assignment.{change_targets_lem}
use apiserver_runtime_exampl.Reconciler.DataStore.{DataStoreRequest, get_create_data_store_request}
use apiserver_runtime_exampl.Reconciler.DataStore.Update.{UpdateError}
use apiserver_runtime_exampl.Reconciler.DataStore.Update.Recorded.{update_data_store-ok}
use apiserver_runtime_exampl.Reconciler.Loop.{
  TargetState, Services, State, finalizer, updated, update_target, add_to, selected, assign_target,
  finalizer_added, reconcile_target, reconcile_got, reconcile,
}

abbrev own_key : Object TargetState → Key
own_key cr =
    get_nsn_key (record { namespace = cr.rest.target.namespace; name = cr.rest.target.name })

put_self : {T : Type 0} (s : View T) (k : Key) (x : T) → put s k x k ≡ some x
put_self s k x = rw (≟_refl k) refl

create_spec-none :
    {T : Type 0} (s : View T) (k : Key) (x : T) (o : Option T)
    → o ≡ none
    → (create_spec s k x o).state k ≡ some x
create_spec-none s k x none h = put_self s k x
create_spec-none s k x (some y) h = cc

module _ {W E F C S : Type 0} (services : Services W E F C S) where
  -- The target has a context with the client `c`.
  abbrev pub HasClient : Mem (Context DataStoreRequest) → Key → ℕ → Type 0
  HasClient r key c =
      (tctx : Context DataStoreRequest) × (view r key ≡ some tctx) × (tctx.client ≡ some c)

  updated-ok :
      (s s' : State W C S)
      (answer : W × Mem (Context DataStoreRequest) × Result (UpdateError E F) (Unit {0}))
      → updated services s answer ≡ done (s', false, none)
      → (s' ≡ record s { world = answer.0; target_store = answer.1 }) × (answer.2 ≡ ok tt)
  unfolding updated
  updated-ok s s' (w, ts, ok _) ran = (sym (ap (λ x. x.0) (done-injective ran)), refl)
  updated-ok s s' (w, ts, err e) ran = let wrong = ap (λ x. x.2) (done-injective ran) in cc

  -- `updateDataStore` leaves the client of the context.
  update_target-ok :
      (s s' : State W C S) (cr : Object TargetState) (c : ℕ)
      → IsStore s.target_store
      → HasClient s.target_store (own_key cr) c
      → update_target services s cr ≡ done (s', false, none)
      → HasClient s'.target_store (own_key cr) c × (s'.data_server_store ≡ s.data_server_store)
  unfolding update_target
  update_target-ok s s' cr c v (tctx, there, client) ran =
      let (answer, called, rest) = >>=-eq-done _ _ ran in
      let (after, fine) = updated-ok s s' answer rest in
      let (req, tctx', _, there', how) =
        update_data_store-ok services.server s.target_store (own_key cr) services.same_target
          (get_create_data_store_request services.is_not_found (services.get_sync s.world)
            (services.get_conn s.world) (services.get_secret s.world) cr.rest.target)
          s.world answer.0 answer.1 v (called ∙ ap done (λ i. (answer.0, answer.1, fine i))) in
      let same : tctx ≡ tctx' = cc in
      (
        subst (λ y. HasClient y.target_store (own_key cr) c) (sym after)
            (elim how [
              | inl (_, _, _, _, _, unchanged) ↦
                  subst (λ r. HasClient r (own_key cr) c) (sym unchanged) (tctx, there, client)
              | inr (_, views) ↦ (
                record tctx' { data_store = some req },
                views (own_key cr)
                    ∙ put_self (view s.target_store) (own_key cr)
                        (record tctx' { data_store = some req }),
                ap (λ t. t.client) (sym same) ∙ client,
              )
            ]),
        ap (λ y. y.data_server_store) after,
      )

  -- The target's own data server has it in its set, if that server is registered.
  abbrev pub IsListed : State W C S → State W C S → Key → ℕ → Type 0
  IsListed s s' key c =
      (d : DsContext C S)
      → view s.data_server_store (get_name_key (services.get_address c)) ≡ some d
      → view s'.data_server_store (get_name_key (services.get_address c))
        ≡ some (record d { targets = services.insert d.targets (key_string key) })

  add_to-ok :
      (s : State W C S) (key : Key) (client : Option ℕ) (servers : Mem (DsContext C S))
      → IsStore s.data_server_store
      → add_to services s key client ≡ done servers
      → (c : ℕ) × (client ≡ some c) × IsListed s (record s { data_server_store = servers }) key c
  unfolding add_to
  add_to-ok s key none servers v ran = cc
  add_to-ok s key (some c) servers v ran = (
    c,
    refl,
    λ d there.
        let (_, views) =
          change_targets_lem services.same_server services.insert s.data_server_store
            (get_name_key (services.get_address c)) key servers d v there ran in
        views (get_name_key (services.get_address c))
        ∙ put_self (view s.data_server_store) (get_name_key (services.get_address c)) _,
  )

  -- What a loop without an error leaves.
  abbrev pub HasAssigned : State W C S → State W C S → Key → Type 0
  HasAssigned s s' key = (c : ℕ) × HasClient s'.target_store key c × IsListed s s' key c

  selected-ok :
      (s s' : State W C S) (cr : Object TargetState) (answer : W × Result F (DsContext C S))
      → IsStore s.target_store
      → IsStore s.data_server_store
      → view s.target_store (own_key cr) ≡ none
      → selected services s cr (own_key cr) answer ≡ done (s', false, none)
      → HasAssigned s s' (own_key cr)
  unfolding selected
  selected-ok s s' cr (w, err f) v u fresh ran =
      let wrong = ap (λ x. x.2) (done-injective ran) in cc
  selected-ok s s' cr (w, ok d) v u fresh ran =
      let key = own_key cr in
      let new : Context DataStoreRequest = record { data_store = none; client = d.client } in
      let (servers, added, rest) = >>=-eq-done (add_to services s key d.client) _ ran in
      let (c, client, listed) = add_to-ok s key d.client servers u added in
      let ((q, res), called, rest') =
        >>=-eq-done (run_call services.same_target s.target_store (Contract.create key new)) _
          rest in
      let (valid, views, _, _) =
        run_call-Meets services.same_target s.target_store q (Contract.create key new) res v
          called in
      let there =
        views key
        ∙ create_spec-none (view s.target_store) key new (view s.target_store key) fresh in
      let (has, same) =
        update_target-ok (record s { world = w; data_server_store = servers; target_store = q }) s'
          cr c valid (new, there, client) rest' in
      (
        c,
        has,
        λ e found. ap (λ r. view r (get_name_key (services.get_address c))) same ∙ listed e found,
      )

  assign_target-ok :
      (s s' : State W C S) (cr : Object TargetState)
      (m : Result StoreError (Context DataStoreRequest))
      → IsStore s.target_store
      → IsStore s.data_server_store
      → Memory.get s.target_store (own_key cr) ≡ m
      → assign_target services s cr (own_key cr) m ≡ done (s', false, none)
      → HasAssigned s s' (own_key cr)
  unfolding assign_target
  assign_target-ok s s' cr (ok tctx) v u there ran =
      let key = own_key cr in
      let (servers, added, rest) = >>=-eq-done (add_to services s key tctx.client) _ ran in
      let (c, client, listed) = add_to-ok s key tctx.client servers u added in
      let (has, same) =
        update_target-ok (record s { data_server_store = servers }) s' cr c v
          (tctx, get-view s.target_store key there, client) rest in
      (
        c,
        has,
        λ e found. ap (λ r. view r (get_name_key (services.get_address c))) same ∙ listed e found,
      )
  assign_target-ok s s' cr (err e) v u there ran =
      let (answer, _, rest) =
        >>=-eq-done
          (select_data_server_context services.size services.new_client services.start s.world
            s.data_server_store)
          _ ran in
      selected-ok s s' cr answer v u (get-missing s.target_store (own_key cr) there) rest

  finalizer_added-ok :
      (s s' : State W C S) (key : Key) (reply : W × Object TargetState × Option (UpdateFailed E))
      → IsStore s.target_store
      → IsStore s.data_server_store
      → own_key reply.1 ≡ key
      → finalizer_added services s key reply ≡ done (s', false, none)
      → HasAssigned s s' key
  unfolding finalizer_added
  finalizer_added-ok s s' key (w, cr, some e) v u own ran =
      let wrong = ap (λ x. x.2) (done-injective ran) in cc
  finalizer_added-ok s s' key (w, cr, none) v u own ran =
      subst (λ k. HasAssigned s s' k) own
        (assign_target-ok (record s { world = w }) s' cr (Memory.get s.target_store (own_key cr)) v
          u refl
          (subst
            (λ k.
              assign_target services (record s { world = w }) cr k (Memory.get s.target_store k)
              ≡ done (s', false, none))
            (sym own) ran))

  added_target :
      (w : W) (cr : Object TargetState)
      → ((v : W) (p : Object TargetState)
          → (services.client_update v p).1.rest.target ≡ p.rest.target)
      → (api_add_finalizer services.client_update services.is_not_found finalizer w
          cr).1.rest.target
        ≡ cr.rest.target
  unfolding api_add_finalizer
  added_target w cr keeps = elim (Bool-cases (finalizer_exists cr.finalizers finalizer)) [
    | inl there ↦ rw there refl
    | inr absent ↦ rw absent (keeps w _)
  ]

  -- A loop without an error, of a target that is not being deleted: the target has a context with a
  -- client, and the data server at that client's address, if it is registered, has the target in its
  -- set.
  pub reconcile-assigned :
      (s s' : State W C S) (req : Key) (cr : Object TargetState)
      → IsStore s.target_store
      → IsStore s.data_server_store
      → services.get_target s.world (get_nsn_key req) ≡ ok cr
      → own_key cr ≡ get_nsn_key req
      → ((v : W) (p : Object TargetState)
          → (services.client_update v p).1.rest.target ≡ p.rest.target)
      → cr.rest.deleting ≡ false
      → reconcile services s req ≡ done (s', false, none)
      → HasAssigned s s' (get_nsn_key req)
  unfolding reconcile reconcile_got reconcile_target
  reconcile-assigned s s' req cr v u got own keeps alive ran =
      let target = added_target s.world cr keeps in
      finalizer_added-ok s s' (get_nsn_key req)
        (api_add_finalizer services.client_update services.is_not_found finalizer s.world cr) v u
        (ap (λ t. get_nsn_key (record { namespace = t.namespace; name = t.name })) target ∙ own)
        (subst (λ b. reconcile_target services s (get_nsn_key req) cr b ≡ done (s', false, none))
          alive (rw got at ran))
