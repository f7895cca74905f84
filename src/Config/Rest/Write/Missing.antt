-- ===== src/Config/Rest/Write/Missing.antt =====
-- Branches of the handlers that end in an error, and the list of a namespace.
use apiserver_runtime_exampl.Base.{
  ℕ, ◌≡◌, refl, ap, Bool, true, false, Option, none, some, List, [], ◌∷◌, Text, Outcome, done,
  panicked, Result, ok, err, lookup, text_eq, Dict, arith,
}
use apiserver_runtime_exampl.Api.Config.{Config, ConfigBlob}
use apiserver_runtime_exampl.Store.Key.{Key, key_eq}
use apiserver_runtime_exampl.Store.Contract.{not_found, duplicate_entry}
use apiserver_runtime_exampl.Store.Memory
use apiserver_runtime_exampl.Store.Memory.{Mem, run_call, visit}
use apiserver_runtime_exampl.Target.Context.{Context, SetIntentRequest, set_intent}
use apiserver_runtime_exampl.Config.Keys.{Object, config, get_key, get_keys}
use apiserver_runtime_exampl.Config.Rest.{
  Cfg, ApiError, bad_request, plain_error, internal_error, store_error, wrong_type, set_uid,
  first_blob, visit_item, list,
}
use apiserver_runtime_exampl.Config.Rest.Write.{
  create_for, create_object, create_at, create, intended, stored, is_not_found, update_old,
  update_found, update_at, update,
}

module _ {D W E U : Type 0} (client_set_intent : W → ℕ → SetIntentRequest → W × Option E)
    (deep_equal : Object → Object → Bool) (r : Cfg D W) where
  -- An `Update` of a name that is not in the store fails and changes nothing, also when it is forced
  -- to allow a creation.
  pub update_missing :
      (ctx : Option Text) (name : Text) (key : Key) (updated : Object → Result U Object)
      (force : Bool)
      → get_key r.is_namespaced ctx name ≡ ok key
      → lookup key r.store.db ≡ none
      → (e : ApiError E U) × (update client_set_intent deep_equal r ctx name updated force
          ≡ done (r, err e))
  unfolding update update_at update_found update_old is_not_found Memory.get
  update_missing ctx name key updated true at_key missing =
      (bad_request wrong_type, rw (at_key, missing))
  update_missing ctx name key updated false at_key missing =
      (plain_error (store_error (not_found key)), rw (at_key, missing))

  -- A `Create` of a key that exists fails, but only after the data server has taken the intent.
  pub create_duplicate :
      (ctx : Option Text) (uid : Text) (obj old : Object) (key tk : Key) (c : Config)
      (b : ConfigBlob) (bs : List ConfigBlob) (tctx : Context D) (w : W)
      → get_keys r.is_namespaced ctx obj ≡ ok (key, tk)
      → set_uid obj uid ≡ config c
      → c.spec.config ≡ b ∷ bs
      → Memory.get r.target_store tk ≡ ok tctx
      → set_intent client_set_intent r.device tctx tk c ≡ (w, ok tt)
      → lookup key r.store.db ≡ some old
      → create {U = U} client_set_intent deep_equal r ctx uid obj
        ≡ done (record r { device = w }, err (internal_error (store_error (duplicate_entry key))))
  unfolding create create_at create_object create_for first_blob intended stored run_call
  create_duplicate ctx uid obj old key tk c b bs tctx w keys is blobs target sent there =
      let blob : first_blob c.spec.config ≡ done b = ap first_blob blobs in
      rw (keys, is, blob, target, sent, there)

  -- A `Create` of a config without blobs panics, whether its target exists or not.
  pub create_empty :
      (ctx : Option Text) (uid : Text) (obj : Object) (key tk : Key) (c : Config)
      → get_keys r.is_namespaced ctx obj ≡ ok (key, tk)
      → set_uid obj uid ≡ config c
      → c.spec.config ≡ []
      → create {U = U} client_set_intent deep_equal r ctx uid obj ≡ panicked
  unfolding create create_at create_object first_blob
  create_empty ctx uid obj key tk c keys is blobs = rw (keys, is, blobs)

visit-item :
    (ns ns' : Text) (items : Outcome (List Config)) (x : Object)
    → visit_item true ns items x ≡ visit_item true ns' items x
unfolding visit_item
visit-item ns ns' items x = ground arith

visit-namespace :
    (ns ns' : Text) (entries : Dict Key Object) (items : Outcome (List Config))
    → visit (some (λ key obj items. visit_item true ns items obj)) entries items
      ≡ visit (some (λ key obj items. visit_item true ns' items obj)) entries items
unfolding visit
visit-namespace ns ns' [] items = refl
visit-namespace ns ns' ((k, x) ∷ entries) items =
    rw (visit-item ns ns' items x) (visit-namespace ns ns' entries (visit_item true ns' items x))

-- In a namespaced storage, `List` returns the same list whatever the namespace of the request.
pub list_ignores_namespace :
    {D W E U : Type 0} (r : Cfg D W) (ns ns' : Text)
    → list {E = E} {U = U} r (some ns) ≡ list r (some ns')
unfolding list Memory.list
list_ignores_namespace r ns ns' = rw (visit-namespace ns ns' r.store.db (done []))
