-- ===== src/Config/Rest/Write/Reads.antt =====
-- What `Get` returns after a `Create` and after a `Delete`.
use apiserver_runtime_exampl.Base.{
  ℕ, ◌≡◌, ap, ◌∙◌, Bool, Option, none, some, Text, done, ok, err, ≟_refl,
}
use apiserver_runtime_exampl.Base.Fallible.{>>=-eq-ok}
use apiserver_runtime_exampl.Store.Key.{Key, key_eq}
use apiserver_runtime_exampl.Store.Memory
use apiserver_runtime_exampl.Store.Memory.Refines.{view, IsStore, view-get}
use apiserver_runtime_exampl.Target.Context.{SetIntentRequest}
use apiserver_runtime_exampl.Config.Keys.{Object, meta_of, get_key, get_target_key, get_keys}
use apiserver_runtime_exampl.Config.Rest
use apiserver_runtime_exampl.Config.Rest.{Cfg, not_found, get_at, get_found}
use apiserver_runtime_exampl.Config.Rest.Write.{create, delete}
use apiserver_runtime_exampl.Config.Rest.Write.Changes.{create-HasCreated}
use apiserver_runtime_exampl.Config.Rest.Write.Deletes.{delete-HasDeleted}

get_keys-key :
    (n : Bool) (ctx : Option Text) (obj : Object) (key tk : Key)
    → get_keys n ctx obj ≡ ok (key, tk)
    → get_key n ctx (meta_of obj).name ≡ ok key
unfolding get_keys
get_keys-key n ctx obj key tk h =
    let (k, at_key, rest) = >>=-eq-ok (get_key n ctx (meta_of obj).name) _ h in
    let (t, at_target, same) = >>=-eq-ok (get_target_key (meta_of obj).labels) _ rest in
    let this : k ≡ key = cc in at_key ∙ ap ok this

module _ {D W E U : Type 0} (r : Cfg D W) (ctx : Option Text) (name : Text) (key : Key) where
  get-some :
      (o : Object)
      → get_key r.is_namespaced ctx name ≡ ok key
      → view r.store key ≡ some o
      → Rest.get {E = E} {U = U} r ctx name ≡ ok o
  unfolding Rest.get get_at get_found
  get-some o at_key there = rw (at_key, view-get r.store key there)

  get-none :
      get_key r.is_namespaced ctx name ≡ ok key
      → view r.store key ≡ none
      → Rest.get {E = E} {U = U} r ctx name ≡ err (not_found name)
  unfolding Rest.get get_at get_found Memory.get
  get-none at_key missing = rw (at_key, missing)

module _ {D W E U : Type 0} (client_set_intent : W → ℕ → SetIntentRequest → W × Option E)
    (deep_equal : Object → Object → Bool) (r r' : Cfg D W) where
  -- What a `Create` came back with, a `Get` of that name in the same namespace returns.
  pub get-create :
      (ctx : Option Text) (uid : Text) (obj o : Object)
      → IsStore r.store
      → create {U = U} client_set_intent deep_equal r ctx uid obj ≡ done (r', ok o)
      → Rest.get {E = E} {U = U} r' ctx (meta_of obj).name ≡ ok o
  get-create ctx uid obj o v ran =
      let h = create-HasCreated client_set_intent deep_equal r r' ctx uid obj o v ran in
      get-some r' ctx (meta_of obj).name h.key o
        (ap (λ n. get_key n ctx (meta_of obj).name) h.changed.scope
          ∙ get_keys-key r.is_namespaced ctx obj h.key h.target_key h.keys)
        (h.changed.views h.key ∙ rw (≟_refl h.key))

  -- After a `Delete` that came back with an object, a `Get` of that name in the same namespace finds
  -- nothing.
  pub get-delete :
      (ctx : Option Text) (name : Text) (o : Object) (b : Bool)
      → IsStore r.store
      → delete {U = U} client_set_intent deep_equal r ctx name ≡ done (r', ok (o, b))
      → Rest.get {E = E} {U = U} r' ctx name ≡ err (not_found name)
  get-delete ctx name o b v ran =
      let h = delete-HasDeleted client_set_intent deep_equal r r' ctx name o b v ran in
      get-none r' ctx name h.key (ap (λ n. get_key n ctx name) h.changed.scope ∙ h.at_key)
        (h.changed.views h.key ∙ rw (≟_refl h.key))
