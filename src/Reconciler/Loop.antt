-- ===== src/Reconciler/Loop.antt =====
-- pkg/reconcilers/target/reconciler.go: `Reconcile`. The API server and the data servers are the
-- state `W` of the world and the calls of a record; each handler's call is one step.
pub mod Deleted
pub mod Assigned
mod Tests
use apiserver_runtime_exampl.Base.{
  ℕ, Bool, true, false, Option, none, some, List, Text, codes, if◌then◌else◌, Dict, Outcome, done,
  panicked, ◌>>=◌, Result, ok, err,
}
use apiserver_runtime_exampl.Store.Key.{Key, key_string, get_nsn_key, get_name_key}
use apiserver_runtime_exampl.Store.Contract
use apiserver_runtime_exampl.Store.Contract.{StoreError}
use apiserver_runtime_exampl.Store.Memory
use apiserver_runtime_exampl.Store.Memory.{Mem, run_call}
use apiserver_runtime_exampl.Api.Target.{Target, TargetConnectionProfileSpec, TargetSyncProfileSpec}
use apiserver_runtime_exampl.Target.Context.{Context}
use apiserver_runtime_exampl.Resource.Finalizer.Api.{
  Object, UpdateFailed, api_add_finalizer, api_remove_finalizer,
}
use apiserver_runtime_exampl.Reconciler.Servers.{
  DsContext, select_data_server_context, change_targets,
}
use apiserver_runtime_exampl.Reconciler.DataStore.{DataStoreRequest, get_create_data_store_request}
use apiserver_runtime_exampl.Reconciler.DataStore.Update.{
  DataServer, UpdateError, update_data_store,
}

-- A target as the API server holds it, less its finalizers; `deleting` is a deletion timestamp.
pub record TargetState : Type 0 where
  pub target : Target
  pub deleting : Bool

-- What the reconciler calls: the client of the API server, the clients of the data servers, and the
-- sets of names. `E` are the errors of the API server, `F` those of the data servers' clients.
pub record Services (W E F C S : Type 0) : Type 0 where
  pub get_target : W → Key → Result E (Object TargetState)
  pub client_update : W → Object TargetState → W × Object TargetState × Option E
  pub is_not_found : E → Bool
  pub get_sync : W → Key → Result E TargetSyncProfileSpec
  pub get_conn : W → Key → Result E TargetConnectionProfileSpec
  pub get_secret : W → Key → Result E (Dict Text Text)
  pub server : DataServer W F
  pub get_address : ℕ → Text
  pub new_client : C → Result F ℕ
  pub start : W → ℕ → W × Option F
  pub size : S → ℕ
  pub insert : S → Text → S
  pub delete : S → Text → S
  pub same_server : DsContext C S → DsContext C S → Bool
  pub same_target : Context DataStoreRequest → Context DataStoreRequest → Bool

pub data ReconcileError (E F : Type 0) : Type 0 where
  cannot_get : E → ReconcileError E F
  cannot_finalize : UpdateFailed E → ReconcileError E F
  cannot_select : F → ReconcileError E F
  cannot_delete : F → ReconcileError E F
  cannot_update_data_store : UpdateError E F → ReconcileError E F

-- The stores of `reconciler`, and the world around it.
pub record State (W C S : Type 0) : Type 0 where
  pub world : W
  pub target_store : Mem (Context DataStoreRequest)
  pub data_server_store : Mem (DsContext C S)

-- The state after the loop, `Requeue`, and the error.
abbrev pub Answer : (W E F C S : Type 0) → Type 0
Answer W E F C S = Outcome (State W C S × Bool × Option (ReconcileError E F))

abbrev finalizer : Text
finalizer = codes "target.inv.nephio.org/finalizer"

module _ {W E F C S : Type 0} (services : Services W E F C S) where
  finalized : State W C S → W × Object TargetState × Option (UpdateFailed E) → Answer W E F C S
  finalized s (w, cr, none) = done (record s { world = w }, false, none)
  finalized s (w, cr, some e) = done (record s { world = w }, true, some (cannot_finalize e))

  remove_from : State W C S → Object TargetState → Answer W E F C S
  unfolding finalized
  remove_from s cr = do
    reply ← api_remove_finalizer services.client_update services.is_not_found finalizer s.world cr
    finalized s reply

  -- The target leaves the target store; the store's error is not looked at.
  drop_target : State W C S → Object TargetState → Key → Answer W E F C S
  unfolding remove_from
  drop_target s cr key = do
    answer ← run_call services.same_target s.target_store (Contract.delete key)
    remove_from (record s { target_store = answer.0 }) cr

  data_store_deleted : State W C S → Object TargetState → Key → W × Option F → Answer W E F C S
  unfolding drop_target
  data_store_deleted s cr key (w, none) = drop_target (record s { world = w }) cr key
  data_store_deleted s cr key (w, some f) =
      if services.server.is_unknown f
      then drop_target (record s { world = w }) cr key
      else done (record s { world = w }, true, some (cannot_delete f))

  delete_data_store :
      State W C S → Object TargetState → Key → ℕ → Option DataStoreRequest → Answer W E F C S
  unfolding drop_target data_store_deleted
  delete_data_store s cr key c none = drop_target s cr key
  delete_data_store s cr key c (some req) =
      data_store_deleted s cr key (services.server.delete_data_store s.world c (key_string key))

  -- A method of a client that is nil panics.
  delete_at :
      State W C S → Object TargetState → Key → Option DataStoreRequest → Option ℕ → Answer W E F C S
  unfolding delete_data_store
  delete_at s cr key req none = panicked
  delete_at s cr key req (some c) = do
    servers ←
        change_targets services.same_server services.delete s.data_server_store
          (get_name_key (services.get_address c)) key
    delete_data_store (record s { data_server_store = servers }) cr key c req

  -- The branch of a target that is being deleted.
  delete_target :
      State W C S
      → Object TargetState
      → Key
      → Result StoreError (Context DataStoreRequest)
      → Answer W E F C S
  unfolding remove_from delete_at
  delete_target s cr key (err e) = remove_from s cr
  delete_target s cr key (ok tctx) = delete_at s cr key tctx.data_store tctx.client

  updated :
      State W C S
      → W × Mem (Context DataStoreRequest) × Result (UpdateError E F) (Unit {0})
      → Answer W E F C S
  updated s (w, ts, ok _) = done (record s { world = w; target_store = ts }, false, none)
  updated s (w, ts, err e) =
      done (record s { world = w; target_store = ts }, false, some (cannot_update_data_store e))

  update_target : State W C S → Object TargetState → Answer W E F C S
  unfolding updated
  update_target s cr =
      let t = cr.rest.target in
      let key = get_nsn_key (record { namespace = t.namespace; name = t.name }) in
      let request =
        get_create_data_store_request services.is_not_found (services.get_sync s.world)
          (services.get_conn s.world) (services.get_secret s.world) t in
      do
        answer ←
            update_data_store services.server services.same_target s.target_store key request
              s.world
        updated s answer

  -- The target enters the set of the data server at the client's address.
  add_to : State W C S → Key → Option ℕ → Outcome (Mem (DsContext C S))
  add_to s key none = panicked
  add_to s key (some c) =
      change_targets services.same_server services.insert s.data_server_store
        (get_name_key (services.get_address c)) key

  selected :
      State W C S → Object TargetState → Key → W × Result F (DsContext C S) → Answer W E F C S
  unfolding add_to update_target
  selected s cr key (w, err f) = done (record s { world = w }, false, some (cannot_select f))
  selected s cr key (w, ok d) = do
    servers ← add_to s key d.client
    answer ←
        run_call services.same_target s.target_store
          (Contract.create key (record { data_store = none; client = d.client }))
    update_target (record s { world = w; data_server_store = servers; target_store = answer.0 }) cr

  assign_target :
      State W C S
      → Object TargetState
      → Key
      → Result StoreError (Context DataStoreRequest)
      → Answer W E F C S
  unfolding add_to update_target selected
  assign_target s cr key (ok tctx) = do
    servers ← add_to s key tctx.client
    update_target (record s { data_server_store = servers }) cr
  assign_target s cr key (err e) = do
    answer ←
        select_data_server_context services.size services.new_client services.start s.world
          s.data_server_store
    selected s cr key answer

  finalizer_added :
      State W C S → Key → W × Object TargetState × Option (UpdateFailed E) → Answer W E F C S
  unfolding assign_target
  finalizer_added s key (w, cr, some e) =
      done (record s { world = w }, false, some (cannot_finalize e))
  finalizer_added s key (w, cr, none) =
      assign_target (record s { world = w }) cr key (Memory.get s.target_store key)

  reconcile_target : State W C S → Key → Object TargetState → Bool → Answer W E F C S
  unfolding delete_target finalizer_added
  reconcile_target s key cr true = delete_target s cr key (Memory.get s.target_store key)
  reconcile_target s key cr false =
      finalizer_added s key
        (api_add_finalizer services.client_update services.is_not_found finalizer s.world cr)

  reconcile_got : State W C S → Key → Result E (Object TargetState) → Answer W E F C S
  unfolding reconcile_target
  reconcile_got s key (err e) =
      if services.is_not_found e
      then done (s, false, none)
      else done (s, false, some (cannot_get e))
  reconcile_got s key (ok cr) = reconcile_target s key cr cr.rest.deleting

  -- `Reconcile`
  unfoldable pub reconcile : State W C S → Key → Answer W E F C S
  unfolding reconcile_got
  reconcile s req =
      let key = get_nsn_key req in reconcile_got s key (services.get_target s.world key)
