-- ===== src/Config/Rest.antt =====
-- pkg/config/config.go: the handlers of the REST storage. The data server is the state `W` and the
-- client's call; a handler that logs `Config[0]` of a config without blobs panics.
pub mod Write
pub mod Watching
pub mod Started
mod Tests
use apiserver_runtime_exampl.Base.{
  ℕ, Bool, true, false, Option, none, some, List, [], ◌∷◌, ◌++◌, map, Text, if◌then◌else◌, ◌&&◌,
  ◌≟◌, text_eq, Outcome, done, blocked, panicked, ◌>>=◌, Result, ok, err, length,
}
use apiserver_runtime_exampl.Channel.{make_chan}
use apiserver_runtime_exampl.Channel.Burst.{send_all}
use apiserver_runtime_exampl.Watch.{Event, EventType, added, modified, deleted}
use apiserver_runtime_exampl.Watch.IdAllocator.{IdError}
use apiserver_runtime_exampl.Watch.Watchers
use apiserver_runtime_exampl.Watch.Watchers.{
  WatchCtx, Watchers, new_watchers, notify_watchers, get_watch_context,
}
use apiserver_runtime_exampl.Api.Config.{Config, ConfigBlob, Meta}
use apiserver_runtime_exampl.Store.Key.{Key}
use apiserver_runtime_exampl.Store.Contract.{StoreError, Call, create, update, delete}
use apiserver_runtime_exampl.Store.Memory
use apiserver_runtime_exampl.Store.Memory.{Mem, run_call}
use apiserver_runtime_exampl.Target.Context.{
  Context, SetIntentRequest, IntentError, set_intent, delete_intent,
}
use apiserver_runtime_exampl.Config.TargetWatcher.{opening, World, world}
use apiserver_runtime_exampl.Config.Keys.{
  Object, config, other, meta_of, KeyError, namespace_mismatch, namespace_from, same_flag, get_key,
  get_target_key, get_keys,
}

-- `cfg`, with the state of the data server.
pub record Cfg (D W : Type 0) : Type 0 where
  pub store : Mem Object
  pub target_store : Mem (Context D)
  pub is_namespaced : Bool
  pub watchers : Watchers Object
  pub device : W

-- What went wrong, and the status that it is reported with.
pub data Cause (E U : Type 0) : Type 0 where
  key_error : KeyError → Cause E U
  wrong_type : Cause E U
  store_error : StoreError → Cause E U
  intent_error : IntentError E → Cause E U
  update_error : U → Cause E U
  watch_error : Cause E U

pub data ApiError (E U : Type 0) : Type 0 where
  bad_request internal_error plain_error : Cause E U → ApiError E U
  not_found : Text → ApiError E U

-- `accessor.SetUID`
unfoldable pub set_uid : Object → Text → Object
set_uid (config c) uid = config (record c { meta = record c.meta { uid = uid } })
set_uid (other m) uid = other (record m { uid = uid })

-- `newObj.Spec.Config[0]`
unfoldable pub first_blob : List ConfigBlob → Outcome ConfigBlob
first_blob [] = panicked
first_blob (b ∷ bs) = done b

-- The event of a config in the first list of a watch.
abbrev pub added_event : Config → Event Object
added_event c = record { event_type = added; object = config c }

-- What a handler comes back with: the state after it, and an object or an error.
abbrev pub Answer : (D W E U A : Type 0) → Type 0
Answer D W E U A = Outcome (Cfg D W × Result (ApiError E U) A)

-- `appendItem`: the items of the list are configs, and `reflect.Append` panics on anything else.
append_item : Outcome (List Config) → Object → Outcome (List Config)
append_item (done items) (config c) = done (items ++ c ∷ [])
append_item (done items) (other m) = panicked
append_item blocked obj = blocked
append_item panicked obj = panicked

-- The visitor of `List`.
visit_item : Bool → Text → Outcome (List Config) → Object → Outcome (List Config)
unfolding append_item
visit_item namespaced ns items obj =
    if namespaced && (meta_of obj).namespace ≟ ns
    then append_item items obj
    else append_item items obj

-- `Get`: any error of the store is reported as "not found".
get_found : {E U : Type 0} → Text → Result StoreError Object → Result (ApiError E U) Object
get_found name (ok obj) = ok obj
get_found name (err e) = err (not_found name)

module _ {D W : Type 0} where
  -- `NewConfigREST`: the storage, and the goroutine on the target store that it starts.
  unfoldable pub new_config_rest :
      Mem Object → Mem (Context D) → Bool → W → Cfg D W × World (Context D)
  new_config_rest store target_store is_namespaced device = (
    record {
      store = store;
      target_store = target_store;
      is_namespaced = is_namespaced;
      watchers = new_watchers 32;
      device = device;
    },
    world target_store opening,
  )

  -- The function of `NewProvider`; the storage codec is what the Kubernetes libraries make of the
  -- scheme, and the storage does nothing with it.
  unfoldable pub new_provider :
      {E C : Type 0}
      → Result E C
      → Mem Object
      → Mem (Context D)
      → Bool
      → W
      → Result E (Cfg D W × World (Context D))
  new_provider (err e) store target_store is_namespaced device = err e
  new_provider (ok codec) store target_store is_namespaced device =
      ok (new_config_rest store target_store is_namespaced device)

module _ {D W E U : Type 0} where
  get_at : Cfg D W → Text → Result KeyError Key → Result (ApiError E U) Object
  unfolding get_found
  get_at r name (err e) = err (bad_request (key_error e))
  get_at r name (ok key) = get_found name (Memory.get r.store key)

  unfoldable pub get : Cfg D W → Option Text → Text → Result (ApiError E U) Object
  unfolding get_at
  get r ctx name = get_at r name (get_key r.is_namespaced ctx name)

  -- `List`
  unfoldable pub list : Cfg D W → Option Text → Outcome (Result (ApiError E U) (List Config))
  unfolding visit_item
  list r ctx =
      let (ns, namespaced) = namespace_from ctx in
      if same_flag namespaced r.is_namespaced
      then (do
        items ←
            Memory.list r.store (some (λ key obj items. visit_item namespaced ns items obj))
              (done [])
        done (ok items))
      else done (err (plain_error (key_error (namespace_mismatch namespaced r.is_namespaced))))

  delete_collection_at :
      Cfg D W → Result KeyError Key → Outcome (Result (ApiError E U) (List Config))
  unfolding append_item
  delete_collection_at r (err e) = done (err (bad_request (key_error e)))
  delete_collection_at r (ok key) = do
    items ← Memory.list r.store (some (λ key obj items. append_item items obj)) (done [])
    done (ok items)

  -- `DeleteCollection`: it changes nothing.
  unfoldable pub delete_collection :
      Cfg D W → Option Text → Outcome (Result (ApiError E U) (List Config))
  unfolding delete_collection_at
  delete_collection r ctx = delete_collection_at r (get_key r.is_namespaced ctx [])

  -- `Watch`: the list goes to a new channel of ten places before the watcher is added.
  add_watch :
      Cfg D W → Watchers Object × Result IdError WatchCtx → Cfg D W × Result (ApiError E U) WatchCtx
  add_watch r (ws, ok w) = (record r { watchers = ws }, ok w)
  add_watch r (ws, err e) = (record r { watchers = ws }, err (plain_error watch_error))

  watch_list :
      Cfg D W
      → Watchers Object × WatchCtx
      → Result (ApiError E U) (List Config)
      → Answer D W E U WatchCtx
  unfolding add_watch
  watch_list r (ws, w) (err e) = done (record r { watchers = ws }, err e)
  watch_list r (ws, w) (ok items) = do
    chans ← send_all ws.chans w.result_ch (map added_event items)
    done (add_watch r (Watchers.add (record ws { chans = chans }) w))

  unfoldable pub watch : Cfg D W → Option Text → Answer D W E U WatchCtx
  unfolding watch_list
  watch r ctx =
      if Watchers.is_exhausted r.watchers
      then done (r, err (plain_error watch_error))
      else (list r ctx >>= λ items. watch_list r (get_watch_context r.watchers) items)
