-- ===== src/Target/Context.antt =====
-- pkg/target/context.go: the context of a target, by which intents reach its data server.
pub mod Intents
mod Tests
use apiserver_runtime_exampl.Base.{
  ℕ, Bool, true, false, Option, none, some, List, [], ◌∷◌, ◌++◌, map, Text, codes, is_nil, ◌==◌,
  if◌then◌else◌, Result, ok, err,
}
use apiserver_runtime_exampl.Base.Fallible.{◌>>=◌}
use apiserver_runtime_exampl.Api.Config.{ℤ, Config, ConfigBlob}
use apiserver_runtime_exampl.Store.Key.{Key, key_string}
use apiserver_runtime_exampl.Target.Path.{SdcPath, PathError, parse_path}

-- `Context`: a client and a data store, each of which may be nil. The client is its
-- handle; `D` are the requests that create data stores.
pub record Context (D : Type 0) : Type 0 where
  pub data_store : Option D
  pub client : Option ℕ

-- `sdcpb.SetIntentRequest`; an update is a path and a JSON value.
pub record SetIntentRequest : Type 0 where
  pub name : Text
  pub intent : Text
  pub priority : ℤ
  pub updates : List (SdcPath × Text)
  pub delete : Bool

-- `strings.ReplaceAll(s, "/", "@")`
abbrev at_signs : Text → Text
at_signs s = map (λ c. if c == b'/' then b'@' else c) s

-- `getGVKNSN`
unfoldable pub get_gvk_nsn : Config → Text
get_gvk_nsn obj =
    let api_version = at_signs obj.meta.api_version in
    if is_nil obj.meta.namespace
    then api_version ++ b'.' ∷ (obj.meta.kind ++ b'.' ∷ obj.meta.name)
    else api_version
      ++ b'.' ∷ (obj.meta.kind ++ b'.' ∷ (obj.meta.namespace ++ b'.' ∷ obj.meta.name))

-- The errors, with the error of the client's call as it is.
pub data IntentError (E : Type 0) : Type 0 where
  client_unavailable data_store_missing : Key → IntentError E
  path_invalid : Key → Text → IntentError E
  rejected : E → IntentError E

module _ {E : Type 0} where
  -- `Validate`
  validate_parts : {D : Type 0} → Key → Option ℕ → Option D → Result (IntentError E) ℕ
  validate_parts key none d = err (client_unavailable key)
  validate_parts key (some c) none = err (data_store_missing key)
  validate_parts key (some c) (some d) = ok c

  unfoldable pub validate : {D : Type 0} → Context D → Key → Result (IntentError E) ℕ
  unfolding validate_parts
  validate r key = validate_parts key r.client r.data_store

  update_of : Key → ConfigBlob → Result PathError SdcPath → Result (IntentError E) (SdcPath × Text)
  update_of key blob (err _) = err (path_invalid key blob.path)
  update_of key blob (ok path) = ok (path, blob.value)

  -- The loop of `SetIntent`: the first path that does not parse ends it.
  unfoldable pub updates_of : Key → List ConfigBlob → Result (IntentError E) (List (SdcPath × Text))
  unfolding update_of
  updates_of key [] = ok []
  updates_of key (blob ∷ blobs) = do
    update ← update_of key blob (parse_path blob.path)
    updates ← updates_of key blobs
    ok (update ∷ updates)

  abbrev pub answered : {W : Type 0} → W × Option E → W × Result (IntentError E) (Unit {0})
  answered (w, none) = (w, ok tt)
  answered (w, some e) = (w, err (rejected e))

  -- The client's call, in the state `W` of the data server.
  module _ {W : Type 0} (client_set_intent : W → ℕ → SetIntentRequest → W × Option E) where
    send_request :
        W → Result (IntentError E) (ℕ × SetIntentRequest) → W × Result (IntentError E) (Unit {0})
    send_request w (ok (c, req)) = answered (client_set_intent w c req)
    send_request w (err e) = (w, err e)

    -- `SetIntent`
    unfoldable pub set_intent :
        {D : Type 0} → W → Context D → Key → Config → W × Result (IntentError E) (Unit {0})
    unfolding validate updates_of send_request
    set_intent w r key obj = send_request w (do
      c ← validate r key
      updates ← updates_of key obj.spec.config
      ok (
        c,
        record {
          name = key_string key;
          intent = get_gvk_nsn obj;
          priority = obj.spec.priority;
          updates = updates;
          delete = false;
        },
      ))

    -- `DeleteIntent`
    unfoldable pub delete_intent :
        {D : Type 0} → W → Context D → Key → Config → W × Result (IntentError E) (Unit {0})
    unfolding validate send_request
    delete_intent w r key obj = send_request w (do
      c ← validate r key
      ok (
        c,
        record {
          name = key_string key;
          intent = get_gvk_nsn obj;
          priority = obj.spec.priority;
          updates = [];
          delete = true;
        },
      ))
