-- ===== src/Reconciler/DataStore/Update.antt =====
-- pkg/reconcilers/target/reconciler.go: `updateDataStore`, in the state `W` of the data server. The
-- client of a target's context is nil only before the reconciler has set it; a call through it then
-- panics.
pub mod Recorded
use apiserver_runtime_exampl.Base.{
  ℕ, Bool, true, false, Option, none, some, Text, if◌then◌else◌, Outcome, done, panicked, ◌>>=◌,
  Result, ok, err,
}
use apiserver_runtime_exampl.Store.Key.{Key, key_string}
use apiserver_runtime_exampl.Store.Contract
use apiserver_runtime_exampl.Store.Contract.{StoreError}
use apiserver_runtime_exampl.Store.Memory
use apiserver_runtime_exampl.Store.Memory.{Mem, run_call}
use apiserver_runtime_exampl.Target.Context.{Context}
use apiserver_runtime_exampl.Reconciler.DataStore.{
  DataStoreRequest, DataStoreResponse, is_data_store_changed,
}

-- What `updateDataStore` fails with: an error of the API server, of the client, or of a store.
pub data UpdateError (E F : Type 0) : Type 0 where
  api_error : E → UpdateError E F
  client_error : F → UpdateError E F
  store_error : StoreError → UpdateError E F

-- The client of the data server, for a client's handle.
pub record DataServer (W F : Type 0) : Type 0 where
  pub get_data_store : W → ℕ → Text → W × Result F DataStoreResponse
  pub delete_data_store : W → ℕ → Text → W × Option F
  pub create_data_store : W → ℕ → DataStoreRequest → W × Option F
  -- Does the error's text contain "unknown datastore"?
  pub is_unknown : F → Bool

abbrev pub Updated : (W E F : Type 0) → Type 0
Updated W E F = Outcome (W × Mem (Context DataStoreRequest) × Result (UpdateError E F) (Unit {0}))

module _ {W E F : Type 0} (server : DataServer W F)
    (deep_equal : Context DataStoreRequest → Context DataStoreRequest → Bool)
    (r : Mem (Context DataStoreRequest)) (key : Key) where
  recorded : W → Mem (Context DataStoreRequest) × Result StoreError (Unit {0}) → Updated W E F
  recorded w (r', ok _) = done (w, r', ok tt)
  recorded w (r', err e) = done (w, r', err (store_error e))

  created : Context DataStoreRequest → DataStoreRequest → W × Option F → Updated W E F
  unfolding recorded
  created tctx req (w, some f) = done (w, r, err (client_error f))
  created tctx req (w, none) = do
    answer ← run_call deep_equal r (Contract.update key (record tctx { data_store = some req }))
    recorded w answer

  -- `CreateDataStore`, and the request entered in the target's context.
  create_at : Context DataStoreRequest → ℕ → DataStoreRequest → W → Updated W E F
  unfolding created
  create_at tctx c req w = created tctx req (server.create_data_store w c req)

  deleted : Context DataStoreRequest → ℕ → DataStoreRequest → W × Option F → Updated W E F
  unfolding create_at
  deleted tctx c req (w, none) = create_at tctx c req w
  deleted tctx c req (w, some f) =
      if server.is_unknown f then create_at tctx c req w else done (w, r, err (client_error f))

  -- After the data server's answer to `GetDataStore`.
  found :
      Context DataStoreRequest
      → ℕ
      → DataStoreRequest
      → W × Result F DataStoreResponse
      → Updated W E F
  unfolding deleted create_at
  found tctx c req (w, err f) =
      if server.is_unknown f then create_at tctx c req w else done (w, r, err (client_error f))
  found tctx c req (w, ok rsp) =
      if is_data_store_changed req rsp
      then deleted tctx c req (server.delete_data_store w c (key_string key))
      else done (w, r, ok tt)

  with_client : Context DataStoreRequest → Option ℕ → DataStoreRequest → W → Updated W E F
  unfolding found
  with_client tctx none req w = panicked
  with_client tctx (some c) req w = found tctx c req (server.get_data_store w c (key_string key))

  with_context : Result StoreError (Context DataStoreRequest) → DataStoreRequest → W → Updated W E F
  unfolding with_client
  with_context (err e) req w = done (w, r, err (store_error e))
  with_context (ok tctx) req w = with_client tctx tctx.client req w

  with_request : Result E DataStoreRequest → W → Updated W E F
  unfolding with_context
  with_request (err e) w = done (w, r, err (api_error e))
  with_request (ok req) w = with_context (Memory.get r key) req w

  -- `updateDataStore`, where `request` is what `getCreateDataStoreRequest` returns.
  unfoldable pub update_data_store : Outcome (Result E DataStoreRequest) → W → Updated W E F
  unfolding with_request
  update_data_store request w = do req ← request; with_request req w
