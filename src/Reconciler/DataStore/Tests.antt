-- ===== src/Reconciler/DataStore/Tests.antt =====
-- A target's data store that is made, and the theorems about that run.
use apiserver_runtime_exampl.Base.{
  ℕ, suc, ◌≡◌, refl, ◌⊎◌, Bool, true, false, Option, none, some, [], ◌∷◌, Text, codes, Outcome,
  done, Result, ok, err, Dict, lookup, insert, nat_eq, text_eq, ℕ_discrete, Text-discrete,
}
use apiserver_runtime_exampl.Api.Target.{
  Target, default_target_sync_profile, default_target_connection_profile, get_sync_profile,
}
use apiserver_runtime_exampl.Watch.Watchers.{new_watchers, notify_watchers, notify_all}
use apiserver_runtime_exampl.Watch.Watchers.Consistent.{new_watchers-IsConsistent}
use apiserver_runtime_exampl.Store.Key.{Key, key_eq, key_string}
use apiserver_runtime_exampl.Store.Memory
use apiserver_runtime_exampl.Store.Memory.{Mem, run_call}
use apiserver_runtime_exampl.Store.Memory.Refines.{view, IsStore}
use apiserver_runtime_exampl.Target.Context.{Context}
use apiserver_runtime_exampl.Reconciler.DataStore.{
  DataStoreRequest, DataStoreResponse, get_create_data_store_request,
}
use apiserver_runtime_exampl.Reconciler.DataStore.Update.{DataServer, update_data_store}
use apiserver_runtime_exampl.Reconciler.DataStore.Update.Recorded.{
  IsUnchanged, HasRecorded, update_data_store-ok,
}

abbrev cr : Target
cr = record {
  namespace = codes "ns";
  name = codes "dev";
  spec = record {
    provider = record { name = codes "srl"; vendor = codes "nokia"; version = codes "1" };
    address = some (codes "a");
    secret_name = codes "s";
    tls_secret_name = none;
    connection_profile = codes "c";
    sync_profile = codes "y";
  };
}

-- An API server with the secret only.
abbrev missing : {A : Type 0} → Key → Result Text A
missing k = err (codes "not found")

abbrev secret : Key → Result Text (Dict Text Text)
secret k = ok ((codes "username", codes "u") ∷ [])

abbrev request : DataStoreRequest
request = record {
  name = codes "ns.dev";
  target_type = codes "gnmi";
  address = codes "a";
  username = codes "u";
  password = [];
  tls = record { ca = []; cert = []; key = []; skip_verify = true };
  sync = get_sync_profile default_target_sync_profile;
  schema = cr.spec.provider;
}

requested : get_create_data_store_request (λ e. true) missing missing secret cr ≡ done (ok request)
unfolding get_create_data_store_request key_string lookup text_eq ℕ_discrete Text-discrete
    default_target_connection_profile
requested = refl

abbrev response : DataStoreResponse
response = record {
  name = codes "ns.dev";
  target_type = codes "gnmi";
  address = codes "a";
  schema = cr.spec.provider;
}

-- A data server without data stores.
abbrev server : DataServer ℕ Text
server = record {
  get_data_store = λ w c name. (w, err (codes "unknown datastore"));
  delete_data_store = λ w c name. (w, none);
  create_data_store = λ w c req. (suc w, none);
  is_unknown = λ e. true;
}

abbrev key : Key
key = record { namespace = codes "ns"; name = codes "dev" }

abbrev store_of : Option DataStoreRequest → Mem (Context DataStoreRequest)
store_of d = record {
  db = (key, record { data_store = d; client = some 0 }) ∷ [];
  watchers = new_watchers 32;
}

store_of-IsStore : (d : Option DataStoreRequest) → IsStore (store_of d)
unfolding lookup
store_of-IsStore d = record { unique = (refl, tt); consistent = new_watchers-IsConsistent 32 }

abbrev differ : Context DataStoreRequest → Context DataStoreRequest → Bool
differ a b = false

made :
    update_data_store {E = Text} server differ (store_of none) key (done (ok request)) 0
    ≡ done (1, store_of (some request), ok tt)
unfolding update_data_store Memory.get lookup insert key_eq ℕ_discrete Text-discrete run_call
    new_watchers notify_watchers notify_all
made = refl

update_data_store-ok_example :
    (req : DataStoreRequest) × (tctx : Context DataStoreRequest) × (◌≡◌
      {A = Outcome (Result Text DataStoreRequest)}
      (done (ok request))
      (done (ok req)))
    × (view (store_of none) key ≡ some tctx)
    × (IsUnchanged server (store_of none) key tctx req 0 1 (store_of (some request))
        ⊎ HasRecorded (store_of none) key tctx req (store_of (some request)))
update_data_store-ok_example =
    update_data_store-ok server (store_of none) key differ (done (ok request)) 0 1
      (store_of (some request)) (store_of-IsStore none) made
