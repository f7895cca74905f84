-- ===== src/Config/Rest/Tests.antt =====
-- Runs of the REST storage, and the theorems about it at these runs.
use apiserver_runtime_exampl.Base.{
  Result, ℕ, zero, suc, ◌≡◌, refl, Bool, true, false, Option, none, some, List, [], ◌∷◌, arith,
  Text, codes, done, ok, err, lookup, insert, erase, Dict, text_eq, nat_eq, ℕ_discrete,
  Text-discrete,
}
use apiserver_runtime_exampl.Watch.IdAllocator
use apiserver_runtime_exampl.Watch.IdAllocator.{new_id_allocator}
use apiserver_runtime_exampl.Watch.Watchers
use apiserver_runtime_exampl.Watch.Watchers.{new_watchers, notify_watchers, notify_all}
use apiserver_runtime_exampl.Watch.Watchers.Consistent.{new_watchers-IsConsistent}
use apiserver_runtime_exampl.Api.Config.{pos, Config, ConfigBlob}
use apiserver_runtime_exampl.Store.Key.{Key, key_eq, get_name_key}
use apiserver_runtime_exampl.Store.Contract
use apiserver_runtime_exampl.Store.Memory
use apiserver_runtime_exampl.Store.Memory.{Mem, run_call}
use apiserver_runtime_exampl.Store.Memory.Refines.{IsStore}
use apiserver_runtime_exampl.Target.Path.{
  parse_path, to_path_elems, to_path_elem, parse_xpath_keys, unescape,
}
use apiserver_runtime_exampl.Target.Context.{
  Context, SetIntentRequest, set_intent, delete_intent, updates_of, validate, rejected,
}
use apiserver_runtime_exampl.Config.Keys.{
  Object, config, get_key, get_target_key, get_keys, meta_of,
}
use apiserver_runtime_exampl.Config.Rest
use apiserver_runtime_exampl.Config.Rest.{Cfg, ApiError, not_found, set_uid, list, watch}
use apiserver_runtime_exampl.Config.Rest.Write.{create, update, delete}
use apiserver_runtime_exampl.Config.Rest.Write.Changes.{
  HasCreated, IsKept, create-HasCreated, create_failed,
}
use apiserver_runtime_exampl.Config.Rest.Write.Deletes.{
  HasDeleted, delete-HasDeleted, delete_failed,
}
use apiserver_runtime_exampl.Config.Rest.Write.Missing.{create_duplicate}
use apiserver_runtime_exampl.Config.Rest.Write.Updates.{HasUpdated, update-HasUpdated}
use apiserver_runtime_exampl.Config.Rest.Write.Reads.{get-create}

abbrev blobs : List ConfigBlob
blobs = record { path = codes "/a"; value = codes "1" } ∷ []

abbrev config_of : Text → List ConfigBlob → Config
config_of uid bs = record {
  meta = record {
    api_version = codes "g/v1";
    kind = codes "Config";
    namespace = codes "ns";
    name = codes "a";
    uid = uid;
    labels = (codes "targetName", codes "dev") ∷ (codes "targetNamespace", codes "ns") ∷ [];
  };
  spec = record {
    lifecycle = record { deletion_policy = codes "delete" };
    priority = pos 10;
    config = bs;
  };
  status = [];
}

abbrev key : Key
key = record { namespace = codes "ns"; name = codes "a" }

abbrev target_key : Key
target_key = record { namespace = codes "ns"; name = codes "dev" }

abbrev context : Context ℕ
context = record { data_store = some 0; client = some 0 }

-- A client that counts its calls, and a storage with one target and the objects `db`.
abbrev counting : ℕ → ℕ → SetIntentRequest → ℕ × Option Text
counting w c req = (suc w, none)

abbrev differ : Object → Object → Bool
differ a b = false

abbrev cfg : Dict Key Object → ℕ → Cfg ℕ ℕ
cfg db w = record {
  store = record { db = db; watchers = new_watchers 32 };
  target_store = record { db = (target_key, context) ∷ []; watchers = new_watchers 32 };
  is_namespaced = true;
  watchers = new_watchers 32;
  device = w;
}

abbrev stored : Dict Key Object
stored = (key, config (config_of (codes "u") blobs)) ∷ []

cfg-IsStore : IsStore (cfg [] 0).store
cfg-IsStore = record { unique = tt; consistent = new_watchers-IsConsistent 32 }

stored-IsStore : IsStore (cfg stored 0).store
unfolding lookup
stored-IsStore = record { unique = ground arith; consistent = new_watchers-IsConsistent 32 }

created :
    create {U = Text} counting differ
      (cfg [] 0)
      (some (codes "ns"))
      (codes "u")
      (config (config_of [] blobs))
    ≡ done (cfg stored 1, ok (config (config_of (codes "u") blobs)))
unfolding create get_keys meta_of get_key get_target_key lookup insert text_eq nat_eq key_eq
    ℕ_discrete Text-discrete set_uid Memory.get set_intent validate updates_of parse_path
    to_path_elems to_path_elem parse_xpath_keys unescape run_call notify_watchers notify_all
    new_watchers
created = refl

create-HasCreated_example :
    HasCreated counting differ
      (cfg [] 0)
      (cfg stored 1)
      (some (codes "ns"))
      (config (config_of [] blobs))
      (codes "u")
      (config (config_of (codes "u") blobs))
create-HasCreated_example =
    create-HasCreated counting differ (cfg [] 0) (cfg stored 1) (some (codes "ns")) (codes "u")
      (config (config_of [] blobs)) (config (config_of (codes "u") blobs)) cfg-IsStore created

get-create_example :
    Rest.get {E = Text} {U = Text} (cfg stored 1) (some (codes "ns")) (codes "a")
    ≡ ok (config (config_of (codes "u") blobs))
unfolding meta_of
get-create_example =
    get-create counting differ (cfg [] 0) (cfg stored 1) (some (codes "ns")) (codes "u")
      (config (config_of [] blobs)) (config (config_of (codes "u") blobs)) cfg-IsStore created

-- The same object again.
abbrev again : ApiError Text Text
again = Rest.internal_error (Rest.store_error (Contract.duplicate_entry key))

sent : set_intent counting 0 context target_key (config_of (codes "u") blobs) ≡ (1, ok tt)
unfolding set_intent validate updates_of parse_path to_path_elems to_path_elem parse_xpath_keys
    unescape text_eq ℕ_discrete
sent = refl

keys : get_keys true (some (codes "ns")) (config (config_of [] blobs)) ≡ ok (key, target_key)
unfolding get_keys meta_of get_key get_target_key lookup text_eq ℕ_discrete Text-discrete
keys = refl

create_duplicate_example :
    create counting differ
      (cfg stored 0)
      (some (codes "ns"))
      (codes "u")
      (config (config_of [] blobs))
    ≡ done (cfg stored 1, err again)
unfolding set_uid Memory.get lookup key_eq ℕ_discrete Text-discrete
create_duplicate_example =
    create_duplicate counting differ (cfg stored 0) (some (codes "ns")) (codes "u")
      (config (config_of [] blobs)) (config (config_of (codes "u") blobs)) key target_key
      (config_of (codes "u") blobs) (record { path = codes "/a"; value = codes "1" }) [] context 1
      keys refl refl refl sent refl

create_failed_example : IsKept (cfg stored 0) (cfg stored 1)
create_failed_example =
    create_failed counting differ (cfg stored 0) (cfg stored 1) (some (codes "ns")) (codes "u")
      (config (config_of [] blobs)) again stored-IsStore create_duplicate_example

at_key : get_key true (some (codes "ns")) (codes "a") ≡ ok key
unfolding get_key
at_key = refl

-- An update that changes the UID.
abbrev renewed : Dict Key Object
renewed = (key, config (config_of (codes "v") blobs)) ∷ []

abbrev renew : Object → Result Text Object
renew x = ok (config (config_of (codes "v") blobs))

updated :
    update counting differ (cfg stored 0) (some (codes "ns")) (codes "a") renew false
    ≡ done (cfg renewed 1, ok (config (config_of (codes "v") blobs), false))
unfolding update get_key get_target_key lookup insert text_eq nat_eq key_eq ℕ_discrete Text-discrete
    Memory.get set_intent validate updates_of parse_path to_path_elems to_path_elem parse_xpath_keys
    unescape run_call notify_watchers notify_all new_watchers
updated = refl

update-HasUpdated_example :
    HasUpdated counting differ
      (cfg stored 0)
      (cfg renewed 1)
      renew
      (some (codes "ns"))
      (codes "a")
      (config (config_of (codes "v") blobs))
      false
update-HasUpdated_example =
    update-HasUpdated counting differ (cfg stored 0) (cfg renewed 1) renew (some (codes "ns"))
      (codes "a") false (config (config_of (codes "v") blobs)) false stored-IsStore updated

deleted :
    delete {U = Text} counting differ (cfg stored 0) (some (codes "ns")) (codes "a")
    ≡ done (cfg [] 1, ok (config (config_of (codes "u") blobs), true))
unfolding delete get_key get_target_key lookup erase text_eq nat_eq key_eq ℕ_discrete Text-discrete
    Memory.get delete_intent validate run_call notify_watchers notify_all new_watchers
deleted = refl

delete-HasDeleted_example :
    HasDeleted counting differ
      (cfg stored 0)
      (cfg [] 1)
      (some (codes "ns"))
      (codes "a")
      (config (config_of (codes "u") blobs))
delete-HasDeleted_example =
    delete-HasDeleted counting differ (cfg stored 0) (cfg [] 1) (some (codes "ns")) (codes "a")
      (config (config_of (codes "u") blobs)) true stored-IsStore deleted

-- A client that refuses.
abbrev refusing : ℕ → ℕ → SetIntentRequest → ℕ × Option Text
refusing w c req = (suc w, some (codes "down"))

refused :
    delete {U = Text} refusing differ (cfg stored 0) (some (codes "ns")) (codes "a")
    ≡ done (cfg stored 1, err (Rest.internal_error (Rest.intent_error (rejected (codes "down")))))
unfolding delete get_key get_target_key lookup text_eq key_eq ℕ_discrete Text-discrete Memory.get
    delete_intent validate
refused = refl

delete_failed_example : IsKept (cfg stored 0) (cfg stored 1)
delete_failed_example =
    delete_failed refusing differ (cfg stored 0) (cfg stored 1) (some (codes "ns")) (codes "a") _
      stored-IsStore refused

-- Eleven configs.
abbrev filled : ℕ → Dict Key Object
filled zero = []
filled (suc n) = (get_name_key (n ∷ []), config (config_of (codes "u") blobs)) ∷ filled n

abbrev listed : ℕ → List Config
listed zero = []
listed (suc n) = config_of (codes "u") blobs ∷ listed n

eleven : list {E = Text} {U = Text} (cfg (filled 11) 0) (some (codes "ns")) ≡ done (ok (listed 11))
unfolding list Memory.list text_eq meta_of ℕ_discrete
eleven = refl

some_id : Watchers.is_exhausted (cfg (filled 11) 0).watchers ≡ false
unfolding new_watchers Watchers.is_exhausted IdAllocator.is_exhausted new_id_allocator
some_id = refl
