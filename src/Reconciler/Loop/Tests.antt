-- ===== src/Reconciler/Loop/Tests.antt =====
-- Runs of the reconciler, and the theorems about it at these runs.
use apiserver_runtime_exampl.Base.{
  ℕ, suc, ◌≡◌, ◌==◌, refl, Bool, true, false, Option, none, some, List, [], ◌∷◌, length, Text,
  codes, done, ok, err, Dict, lookup, insert, erase, nat_eq, text_eq, ℕ_discrete, Text-discrete,
}
use apiserver_runtime_exampl.Watch.Watchers.{new_watchers, notify_watchers, notify_all}
use apiserver_runtime_exampl.Watch.Watchers.Consistent.{new_watchers-IsConsistent}
use apiserver_runtime_exampl.Store.Key.{Key, key_eq, key_string, get_nsn_key, get_name_key}
use apiserver_runtime_exampl.Store.Memory
use apiserver_runtime_exampl.Store.Memory.{Mem, run_call}
use apiserver_runtime_exampl.Store.Memory.Refines.{IsStore}
use apiserver_runtime_exampl.Api.Target.{
  Target, default_target_sync_profile, default_target_connection_profile, get_sync_profile,
}
use apiserver_runtime_exampl.Target.Context.{Context}
use apiserver_runtime_exampl.Resource.Finalizer.{finalizer_exists, add_finalizer, remove_finalizer}
use apiserver_runtime_exampl.Resource.Finalizer.Api.{
  Object, api_add_finalizer, api_remove_finalizer,
}
use apiserver_runtime_exampl.Reconciler.Servers.{
  DsContext, change_targets, selected_server, select_data_server_context,
}
use apiserver_runtime_exampl.Reconciler.DataStore.{DataStoreRequest, get_create_data_store_request}
use apiserver_runtime_exampl.Reconciler.DataStore.Update.{update_data_store}
use apiserver_runtime_exampl.Reconciler.Loop.{
  TargetState, Services, State, ReconcileError, cannot_delete, finalizer, reconcile,
}
use apiserver_runtime_exampl.Reconciler.Loop.Deleted.{
  HasEnded, reconcile-deleted, reconcile-refused,
}
use apiserver_runtime_exampl.Reconciler.Loop.Assigned.{HasAssigned, reconcile-assigned}

abbrev cr : Target
cr = record {
  namespace = codes "ns";
  name = codes "dev";
  spec = record {
    provider = record { name = codes "srl"; vendor = codes "nokia"; version = codes "1" };
    address = some (codes "a");
    secret_name = codes "s";
    tls_secret_name = none;
    connection_profile = codes "c";
    sync_profile = codes "y";
  };
}

abbrev key : Key
key = record { namespace = codes "ns"; name = codes "dev" }

abbrev object : Bool → List Text → Object TargetState
object deleting fs = record { rest = record { target = cr; deleting = deleting }; finalizers = fs }

-- The world counts the calls; `refusal` is what a data server says to a deletion.
abbrev services : Object TargetState → Option Text → Services ℕ Text Text ℕ (List Text)
services cr refusal = record {
  get_target = λ _ _. ok cr;
  client_update = λ w o. (suc w, o, none);
  is_not_found = λ _. true;
  get_sync = λ _ _. err (codes "not found");
  get_conn = λ _ _. err (codes "not found");
  get_secret = λ _ _. ok [];
  server = record {
    get_data_store = λ w _ _. (suc w, err (codes "unknown datastore"));
    delete_data_store = λ w _ _. (suc w, refusal);
    create_data_store = λ w _ _. (suc w, none);
    is_unknown = λ f. length f == 17;
  };
  get_address = λ _. codes "ds";
  new_client = λ c. ok c;
  start = λ w _. (suc w, none);
  size = length;
  insert = λ s t. t ∷ s;
  delete = λ s t. [];
  same_server = λ _ _. false;
  same_target = λ _ _. false;
}

abbrev context : Option DataStoreRequest → Context DataStoreRequest
context req = record { data_store = req; client = some 0 }

abbrev request : DataStoreRequest
request = record {
  name = codes "ns.dev";
  target_type = codes "gnmi";
  address = codes "a";
  username = [];
  password = [];
  tls = record { ca = []; cert = []; key = []; skip_verify = true };
  sync = get_sync_profile default_target_sync_profile;
  schema = cr.spec.provider;
}

abbrev targets : Dict Key (Context DataStoreRequest) → Mem (Context DataStoreRequest)
targets db = record { db = db; watchers = new_watchers 32 }

abbrev servers : List Text → Mem (DsContext ℕ (List Text))
servers ts = record {
  db = (get_name_key (codes "ds"), record { config = 0; targets = ts; client = none }) ∷ [];
  watchers = new_watchers 32;
}

abbrev state : ℕ → Dict Key (Context DataStoreRequest) → List Text → State ℕ ℕ (List Text)
state w db ts = record { world = w; target_store = targets db; data_server_store = servers ts }

abbrev holding : Dict Key (Context DataStoreRequest)
holding = (key, context (some request)) ∷ []

no_targets-IsStore : IsStore (targets [])
no_targets-IsStore = record { unique = tt; consistent = new_watchers-IsConsistent 32 }

holding-IsStore : IsStore (targets holding)
unfolding lookup
holding-IsStore = record { unique = (refl, tt); consistent = new_watchers-IsConsistent 32 }

servers-IsStore : (ts : List Text) → IsStore (servers ts)
unfolding lookup
servers-IsStore ts = record { unique = (refl, tt); consistent = new_watchers-IsConsistent 32 }

-- A new target: its finalizer, a client that is started, a data store.
assigned :
    reconcile (services (object false []) none) (state 0 [] []) key
    ≡ done (state 4 holding (codes "ns.dev" ∷ []), false, none)
unfolding reconcile api_add_finalizer add_finalizer finalizer_exists select_data_server_context
    selected_server update_data_store get_create_data_store_request
    default_target_connection_profile default_target_sync_profile get_sync_profile Memory.get
    Memory.list lookup insert erase key_eq key_string text_eq Text-discrete ℕ_discrete get_name_key
    get_nsn_key run_call notify_watchers notify_all new_watchers change_targets
assigned = refl

deleted :
    reconcile
      (services (object true (finalizer ∷ [])) none)
      (state 0 holding (codes "ns.dev" ∷ []))
      key
    ≡ done (state 2 [] [], false, none)
unfolding reconcile api_remove_finalizer remove_finalizer finalizer_exists Memory.get Memory.list
    lookup insert erase key_eq key_string text_eq Text-discrete ℕ_discrete get_name_key get_nsn_key
    run_call notify_watchers notify_all new_watchers change_targets
deleted = refl

refused :
    reconcile
      (services (object true (finalizer ∷ [])) (some (codes "busy")))
      (state 0 holding (codes "ns.dev" ∷ []))
      key
    ≡ done (state 1 holding [], true, some (cannot_delete (codes "busy")))
unfolding reconcile Memory.get Memory.list lookup insert erase key_eq key_string text_eq
    Text-discrete ℕ_discrete get_name_key get_nsn_key run_call notify_watchers notify_all
    new_watchers change_targets
refused = refl

reconcile-assigned_example :
    HasAssigned
      (services (object false []) none)
      (state 0 [] [])
      (state 4 holding (codes "ns.dev" ∷ []))
      (get_nsn_key key)
unfolding get_nsn_key
reconcile-assigned_example =
    reconcile-assigned (services (object false []) none) (state 0 [] [])
      (state 4 holding (codes "ns.dev" ∷ [])) key (object false []) no_targets-IsStore
      (servers-IsStore []) refl refl (λ v p. refl) refl assigned

reconcile-deleted_example :
    HasEnded
      (services (object true (finalizer ∷ [])) none)
      (state 2 [] [])
      (get_nsn_key key)
      (object true (finalizer ∷ []))
reconcile-deleted_example =
    reconcile-deleted (services (object true (finalizer ∷ [])) none)
      (state 0 holding (codes "ns.dev" ∷ [])) (state 2 [] []) key (object true (finalizer ∷ []))
      holding-IsStore refl refl deleted

reconcile-refused_example :
    (targets holding ≡ targets holding)
    × ◌≡◌ {A = ℕ} 1 1
    × (true ≡ true)
    × ◌≡◌ {A = Option (ReconcileError Text Text)}
        (some (cannot_delete (codes "busy")))
        (some (cannot_delete (codes "busy")))
unfolding lookup get_nsn_key key_eq text_eq Text-discrete ℕ_discrete
reconcile-refused_example =
    reconcile-refused (services (object true (finalizer ∷ [])) (some (codes "busy")))
      (state 0 holding (codes "ns.dev" ∷ [])) (state 1 holding []) key
      (object true (finalizer ∷ [])) (context (some request)) 0 request 1 (codes "busy") refl refl
      refl refl refl refl refl refused
