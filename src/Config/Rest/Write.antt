-- ===== src/Config/Rest/Write.antt =====
-- pkg/config/config.go: `Create`, `Update` and `Delete`.
pub mod Stored
pub mod Changes
pub mod Missing
pub mod Updates
pub mod Reads
pub mod Deletes
use apiserver_runtime_exampl.Base.{
  ℕ, Bool, true, false, not, ◌&&◌, Option, none, some, List, Text, if◌then◌else◌, Outcome, done,
  ◌>>=◌, Result, ok, err,
}
use apiserver_runtime_exampl.Watch.{EventType, added, modified, deleted}
use apiserver_runtime_exampl.Watch.Watchers.{notify_watchers}
use apiserver_runtime_exampl.Api.Config.{Config}
use apiserver_runtime_exampl.Store.Key.{Key}
use apiserver_runtime_exampl.Store.Contract
use apiserver_runtime_exampl.Store.Contract.{StoreError, Call}
use apiserver_runtime_exampl.Store.Memory
use apiserver_runtime_exampl.Store.Memory.{Mem, run_call}
use apiserver_runtime_exampl.Target.Context.{
  Context, SetIntentRequest, IntentError, set_intent, delete_intent,
}
use apiserver_runtime_exampl.Config.Keys.{
  Object, config, other, meta_of, KeyError, get_key, get_target_key, get_keys,
}
use apiserver_runtime_exampl.Config.Rest.{
  Cfg, Cause, key_error, wrong_type, store_error, intent_error, update_error, ApiError, bad_request,
  internal_error, plain_error, not_found, Answer, set_uid, first_blob,
}

-- Does the text of a store's error contain "not found"?
is_not_found : StoreError → Bool
is_not_found (Contract.not_found key) = true
is_not_found _ = false

-- `client_set_intent` is the data server's client, `deep_equal` Go's `reflect.DeepEqual`.
module _ {D W E U : Type 0} (client_set_intent : W → ℕ → SetIntentRequest → W × Option E)
    (deep_equal : Object → Object → Bool) where
  -- `NotifyWatchers`, and the object that the handler returns.
  notify : {A : Type 0} → Cfg D W → EventType → Object → A → Answer D W E U A
  notify r t obj a = do
    ws ← notify_watchers r.watchers (record { event_type = t; object = obj })
    done (record r { watchers = ws }, ok a)

  -- After the store's answer: an error ends the handler, else the watchers hear of the change.
  stored :
      {A : Type 0}
      → Cfg D W
      → EventType
      → Object
      → A
      → Mem Object × Result StoreError (Unit {0})
      → Answer D W E U A
  unfolding notify
  stored r t obj a (store, err e) =
      done (record r { store = store }, err (internal_error (store_error e)))
  stored r t obj a (store, ok _) = notify (record r { store = store }) t obj a

  -- After the data server's answer: an error ends the handler, else the store is called.
  pub intended :
      {A : Type 0}
      → Cfg D W
      → EventType
      → Object
      → A
      → Call Object
      → W × Result (IntentError E) (Unit {0})
      → Answer D W E U A
  unfolding stored
  intended r t obj a c (w, err e) =
      done (record r { device = w }, err (internal_error (intent_error e)))
  intended r t obj a c (w, ok _) = do
    answer ← run_call deep_equal r.store c
    stored (record r { device = w }) t obj a answer

  -- `Create`, behind the target's context, the assertion of the type, and the keys.
  create_for : Cfg D W → Key → Key → Config → Result StoreError (Context D) → Answer D W E U Object
  unfolding intended
  create_for r key target_key c (err e) = done (r, err (internal_error (store_error e)))
  create_for r key target_key c (ok tctx) =
      intended r added (config c) (config c) (Contract.create key (config c))
        (set_intent client_set_intent r.device tctx target_key c)

  create_object : Cfg D W → Key → Key → Object → Answer D W E U Object
  unfolding create_for first_blob
  create_object r key target_key (other m) = done (r, err (bad_request wrong_type))
  create_object r key target_key (config c) = do
    blob ← first_blob c.spec.config
    create_for r key target_key c (Memory.get r.target_store target_key)

  create_at : Cfg D W → Text → Object → Result KeyError (Key × Key) → Answer D W E U Object
  unfolding create_object set_uid
  create_at r uid obj (err e) = done (r, err (bad_request (key_error e)))
  create_at r uid obj (ok (key, target_key)) = create_object r key target_key (set_uid obj uid)

  -- `Create`; `uid` is the new UUID. The validation function is not called.
  unfoldable pub create : Cfg D W → Option Text → Text → Object → Answer D W E U Object
  unfolding create_at get_keys
  create r ctx uid obj = create_at r uid obj (get_keys r.is_namespaced ctx obj)

  -- `Update`, behind the context of the new object's target.
  update_for :
      Cfg D W
      → Bool
      → Key
      → Key
      → Config
      → Result StoreError (Context D)
      → Answer D W E U (Object × Bool)
  unfolding intended first_blob
  update_for r is_create key target_key c (err e) = done (r, err (internal_error (store_error e)))
  update_for r is_create key target_key c (ok tctx) = do
    blob ← first_blob c.spec.config
    if not is_create
        then intended r added (config c) (config c, false) (Contract.update key (config c))
            (set_intent client_set_intent r.device tctx target_key c)
        else intended r modified (config c) (config c, true) (Contract.create key (config c))
            (set_intent client_set_intent r.device tctx target_key c)

  update_target :
      Cfg D W → Bool → Key → Config → Result KeyError Key → Answer D W E U (Object × Bool)
  unfolding update_for
  update_target r is_create key c (err e) = done (r, err (bad_request (key_error e)))
  update_target r is_create key c (ok target_key) =
      update_for r is_create key target_key c (Memory.get r.target_store target_key)

  update_new : Cfg D W → Bool → Key → Result U Object → Answer D W E U (Object × Bool)
  unfolding update_target get_target_key
  update_new r is_create key (err e) = done (r, err (plain_error (update_error e)))
  update_new r is_create key (ok (other m)) = done (r, err (bad_request wrong_type))
  update_new r is_create key (ok (config c)) =
      update_target r is_create key c (get_target_key c.meta.labels)

  -- The old object, which is nil for an update that is to create.
  update_old :
      Cfg D W
      → Bool
      → Key
      → (Object → Result U Object)
      → Option Object
      → Answer D W E U (Object × Bool)
  unfolding update_new
  update_old r is_create key updated none = done (r, err (bad_request wrong_type))
  update_old r is_create key updated (some (other m)) = done (r, err (bad_request wrong_type))
  update_old r is_create key updated (some (config c)) =
      update_new r is_create key (updated (config c))

  update_found :
      Cfg D W
      → Key
      → (Object → Result U Object)
      → Bool
      → Result StoreError Object
      → Answer D W E U (Object × Bool)
  unfolding update_old is_not_found
  update_found r key updated force (ok obj) = update_old r false key updated (some obj)
  update_found r key updated force (err e) =
      if force && is_not_found e
      then update_old r true key updated none
      else done (r, err (plain_error (store_error e)))

  update_at :
      Cfg D W
      → (Object → Result U Object)
      → Bool
      → Result KeyError Key
      → Answer D W E U (Object × Bool)
  unfolding update_found
  update_at r updated force (err e) = done (r, err (bad_request (key_error e)))
  update_at r updated force (ok key) = update_found r key updated force (Memory.get r.store key)

  -- `Update`; `updated` is `objInfo.UpdatedObject`. The validation functions are not called.
  unfoldable pub update :
      Cfg D W
      → Option Text
      → Text
      → (Object → Result U Object)
      → Bool
      → Answer D W E U (Object × Bool)
  unfolding update_at get_key
  update r ctx name updated force = update_at r updated force (get_key r.is_namespaced ctx name)

  -- `Delete`, behind the context of the target.
  delete_for :
      Cfg D W → Key → Key → Config → Result StoreError (Context D) → Answer D W E U (Object × Bool)
  unfolding intended
  delete_for r key target_key c (err e) = done (r, err (internal_error (store_error e)))
  delete_for r key target_key c (ok tctx) =
      intended r deleted (config c) (config c, true) (Contract.delete key)
        (delete_intent client_set_intent r.device tctx target_key c)

  delete_target : Cfg D W → Key → Config → Result KeyError Key → Answer D W E U (Object × Bool)
  unfolding delete_for
  delete_target r key c (err e) = done (r, err (bad_request (key_error e)))
  delete_target r key c (ok target_key) =
      delete_for r key target_key c (Memory.get r.target_store target_key)

  delete_found : Cfg D W → Text → Key → Result StoreError Object → Answer D W E U (Object × Bool)
  unfolding delete_target get_target_key
  delete_found r name key (err e) = done (r, err (not_found name))
  delete_found r name key (ok (other m)) = done (r, err (bad_request wrong_type))
  delete_found r name key (ok (config c)) = delete_target r key c (get_target_key c.meta.labels)

  delete_at : Cfg D W → Text → Result KeyError Key → Answer D W E U (Object × Bool)
  unfolding delete_found
  delete_at r name (err e) = done (r, err (bad_request (key_error e)))
  delete_at r name (ok key) = delete_found r name key (Memory.get r.store key)

  -- `Delete`
  unfoldable pub delete : Cfg D W → Option Text → Text → Answer D W E U (Object × Bool)
  unfolding delete_at get_key
  delete r ctx name = delete_at r name (get_key r.is_namespaced ctx name)
