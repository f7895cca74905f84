-- ===== src/Reconciler/DataStore.antt =====
-- pkg/reconcilers/target/reconciler.go: the data store of a target, `getCreateDataStoreRequest`,
-- `isDataStoreChanged` and `updateDataStore`. What the API server holds (`get_…`) and the client of
-- the data server are parameters.
pub mod Update
mod Tests
use apiserver_runtime_exampl.Base.{
  ℕ, Bool, true, false, not, ◌||◌, Option, none, some, [], Text, codes, if◌then◌else◌, text_eq, ◌≟◌,
  Dict, lookup, Outcome, done, panicked, Result, ok, err,
}
use apiserver_runtime_exampl.Base.Fallible.{◌>>=◌}
use apiserver_runtime_exampl.Api.Target.{
  Provider, Target, TargetConnectionProfileSpec, TargetSyncProfileSpec,
  default_target_connection_profile, default_target_sync_profile, Sync, get_sync_profile, or_else,
}
use apiserver_runtime_exampl.Store.Key.{Key, key_string}
use apiserver_runtime_exampl.Store.Contract
use apiserver_runtime_exampl.Store.Contract.{StoreError}
use apiserver_runtime_exampl.Store.Memory
use apiserver_runtime_exampl.Store.Memory.{Mem, run_call}
use apiserver_runtime_exampl.Target.Context.{Context}

-- `sdcpb.TLS` and `sdcpb.CreateDataStoreRequest`, the fields that are set; a schema has the fields
-- of a provider.
pub record Tls : Type 0 where
  pub ca : Text
  pub cert : Text
  pub key : Text
  pub skip_verify : Bool

pub record DataStoreRequest : Type 0 where
  pub name : Text
  pub target_type : Text
  pub address : Text
  pub username : Text
  pub password : Text
  pub tls : Tls
  pub sync : Sync
  pub schema : Provider

-- `sdcpb.GetDataStoreResponse`, the fields that are compared.
pub record DataStoreResponse : Type 0 where
  pub name : Text
  pub target_type : Text
  pub address : Text
  pub schema : Provider

-- `isDataStoreChanged`
unfoldable pub is_data_store_changed : DataStoreRequest → DataStoreResponse → Bool
is_data_store_changed req rsp =
    if not (req.name ≟ rsp.name)
    then true
    else if not (req.schema.name ≟ rsp.schema.name)
        || not (req.schema.vendor ≟ rsp.schema.vendor)
        || not (req.schema.version ≟ rsp.schema.version)
    then true
    else if not (req.target_type ≟ rsp.target_type) || not (req.address ≟ rsp.address)
    then true
    else false

-- `getConnProfile` and `getSyncProfile`: the default stands for a profile that is not found.
unfoldable pub profile_or_default : {E A : Type 0} → (E → Bool) → A → Result E A → Result E A
profile_or_default is_not_found default (ok p) = ok p
profile_or_default is_not_found default (err e) = if is_not_found e then ok default else err e

module _ {E : Type 0} (is_not_found : E → Bool) (get_sync : Key → Result E TargetSyncProfileSpec)
    (get_conn : Key → Result E TargetConnectionProfileSpec)
    (get_secret : Key → Result E (Dict Text Text)) where
  -- The TLS secret, if the target names one.
  tls_of : Target → Bool → Option Text → Result E Tls
  tls_of cr skip none = ok (record { ca = []; cert = []; key = []; skip_verify = skip })
  tls_of cr skip (some name) = do
    secret ← get_secret (record { namespace = cr.namespace; name = name })
    ok (record {
      ca = or_else [] (lookup (codes "ca") secret);
      cert = or_else [] (lookup (codes "cert") secret);
      key = or_else [] (lookup (codes "key") secret);
      skip_verify = skip;
    })

  -- What the request takes from the API server.
  request_parts :
      Target → Result E (TargetSyncProfileSpec × TargetConnectionProfileSpec × Dict Text Text × Tls)
  unfolding profile_or_default tls_of
  request_parts cr = do
    sync ←
        profile_or_default is_not_found default_target_sync_profile
          (get_sync (record { namespace = cr.namespace; name = cr.spec.sync_profile }))
    conn ←
        profile_or_default is_not_found default_target_connection_profile
          (get_conn (record { namespace = cr.namespace; name = cr.spec.connection_profile }))
    secret ← get_secret (record { namespace = cr.namespace; name = cr.spec.secret_name })
    tls ← tls_of cr (or_else false conn.skip_verify) cr.spec.tls_secret_name
    ok (sync, conn, secret, tls)

  -- The request; an address that is nil is dereferenced.
  request_at :
      Target
      → TargetSyncProfileSpec × TargetConnectionProfileSpec × Dict Text Text × Tls
      → Option Text
      → Outcome (Result E DataStoreRequest)
  request_at cr parts none = panicked
  request_at cr (sync, conn, secret, tls) (some address) = done (
      ok (record {
        name = key_string (record { namespace = cr.namespace; name = cr.name });
        target_type = conn.protocol;
        address = address;
        username = or_else [] (lookup (codes "username") secret);
        password = or_else [] (lookup (codes "password") secret);
        tls = tls;
        sync = get_sync_profile sync;
        schema = cr.spec.provider;
      }))

  request_with :
      Target
      → Result E (TargetSyncProfileSpec × TargetConnectionProfileSpec × Dict Text Text × Tls)
      → Outcome (Result E DataStoreRequest)
  unfolding request_at
  request_with cr (err e) = done (err e)
  request_with cr (ok parts) = request_at cr parts cr.spec.address

  -- `getCreateDataStoreRequest`
  unfoldable pub get_create_data_store_request : Target → Outcome (Result E DataStoreRequest)
  unfolding request_parts request_with
  get_create_data_store_request cr = request_with cr (request_parts cr)
