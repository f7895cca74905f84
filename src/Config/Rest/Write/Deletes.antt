-- ===== src/Config/Rest/Write/Deletes.antt =====
-- What `Delete` has changed when it comes back, and what `Get` says afterwards.
use apiserver_runtime_exampl.Base.{
  ℕ, ◌≡◌, refl, ap, ◌∙◌, Bool, true, Option, none, some, Text, done, Result, ok, err, is_ok,
}
use apiserver_runtime_exampl.Watch.{deleted}
use apiserver_runtime_exampl.Api.Config.{Config}
use apiserver_runtime_exampl.Store.Key.{Key, key_eq}
use apiserver_runtime_exampl.Store.Contract
use apiserver_runtime_exampl.Store.Contract.{StoreError, View, remove, delete_spec}
use apiserver_runtime_exampl.Store.Memory
use apiserver_runtime_exampl.Store.Memory.Refines.{view, IsStore, get-view}
use apiserver_runtime_exampl.Target.Context.{Context, SetIntentRequest, delete_intent}
use apiserver_runtime_exampl.Config.Keys.{Object, config, other, KeyError, get_key, get_target_key}
use apiserver_runtime_exampl.Config.Rest.{Cfg, ApiError}
use apiserver_runtime_exampl.Config.Rest.Write.{
  delete_for, delete_target, delete_found, delete_at, delete,
}
use apiserver_runtime_exampl.Config.Rest.Write.Changes.{IsKept, IsKept-same}
use apiserver_runtime_exampl.Config.Rest.Write.Stored.{HasChanged, intended-ok, intended-err}

delete_spec-some {ℓ} :
    {T : Type ℓ} (s : View T) (k : Key) (o : Option T) (x : T)
    → o ≡ some x
    → (j : Key) → (delete_spec s k o).state j ≡ remove s k j
delete_spec-some s k none x h j = cc
delete_spec-some s k (some y) x h j = refl

module _ {D W E : Type 0} (client_set_intent : W → ℕ → SetIntentRequest → W × Option E)
    (deep_equal : Object → Object → Bool) (r r' : Cfg D W) where
  -- A config was deleted: its intent was deleted at its target, then its entry.
  pub record HasDeleted (ctx : Option Text) (name : Text) (o : Object) : Type 0 where
    pub key : Key
    pub target_key : Key
    pub entered : Config
    pub context : Context D
    pub at_key : get_key r.is_namespaced ctx name ≡ ok key
    pub there : Memory.get r.store key ≡ ok (config entered)
    pub answer : o ≡ config entered
    pub labels : get_target_key entered.meta.labels ≡ ok target_key
    pub target : Memory.get r.target_store target_key ≡ ok context
    pub accepted :
        is_ok (delete_intent client_set_intent r.device context target_key entered).1 ≡ true
    pub changed :
        HasChanged r r'
          (delete_intent client_set_intent r.device context target_key entered).0
          (remove (view r.store) key)

  module _ {U : Type 0} where
    delete_for-ok :
        (ctx : Option Text) (name : Text) (key tk : Key) (c : Config) (o : Object) (b : Bool)
        (t : Result StoreError (Context D))
        → IsStore r.store
        → get_key r.is_namespaced ctx name ≡ ok key
        → Memory.get r.store key ≡ ok (config c)
        → get_target_key c.meta.labels ≡ ok tk
        → Memory.get r.target_store tk ≡ t
        → delete_for {U = U} client_set_intent deep_equal r key tk c t ≡ done (r', ok (o, b))
        → HasDeleted ctx name o
    unfolding delete_for
    delete_for-ok ctx name key tk c o b (err e) v at_key there labels target ran = cc
    delete_for-ok ctx name key tk c o b (ok tctx) v at_key there labels target ran =
        let (good, same, result, changed) =
          intended-ok client_set_intent deep_equal r r' deleted (config c) (config c, true) (o, b)
            (Contract.delete key) _ _ v ran in
        record {
          key = key;
          target_key = tk;
          entered = c;
          context = tctx;
          at_key = at_key;
          there = there;
          answer = ap (λ p. p.0) same;
          labels = labels;
          target = target;
          accepted = good;
          changed = record {
            valid = changed.valid;
            device = changed.device;
            scope = changed.scope;
            targets = changed.targets;
            views = λ j.
                changed.views j
                ∙ delete_spec-some (view r.store) key (view r.store key) (config c)
                    (get-view r.store key there) j;
          };
        }

    delete_target-ok :
        (ctx : Option Text) (name : Text) (key : Key) (c : Config) (o : Object) (b : Bool)
        (k : Result KeyError Key)
        → IsStore r.store
        → get_key r.is_namespaced ctx name ≡ ok key
        → Memory.get r.store key ≡ ok (config c)
        → get_target_key c.meta.labels ≡ k
        → delete_target {U = U} client_set_intent deep_equal r key c k ≡ done (r', ok (o, b))
        → HasDeleted ctx name o
    unfolding delete_target
    delete_target-ok ctx name key c o b (err e) v at_key there labels ran = cc
    delete_target-ok ctx name key c o b (ok tk) v at_key there labels ran =
        delete_for-ok ctx name key tk c o b (Memory.get r.target_store tk) v at_key there labels
          refl ran

    delete_found-ok :
        (ctx : Option Text) (name : Text) (key : Key) (o : Object) (b : Bool)
        (f : Result StoreError Object)
        → IsStore r.store
        → get_key r.is_namespaced ctx name ≡ ok key
        → Memory.get r.store key ≡ f
        → delete_found {U = U} client_set_intent deep_equal r name key f ≡ done (r', ok (o, b))
        → HasDeleted ctx name o
    unfolding delete_found
    delete_found-ok ctx name key o b (err e) v at_key there ran = cc
    delete_found-ok ctx name key o b (ok (other m)) v at_key there ran = cc
    delete_found-ok ctx name key o b (ok (config c)) v at_key there ran =
        delete_target-ok ctx name key c o b (get_target_key c.meta.labels) v at_key there refl ran

    delete_at-ok :
        (ctx : Option Text) (name : Text) (o : Object) (b : Bool) (k : Result KeyError Key)
        → IsStore r.store
        → get_key r.is_namespaced ctx name ≡ k
        → delete_at {U = U} client_set_intent deep_equal r name k ≡ done (r', ok (o, b))
        → HasDeleted ctx name o
    unfolding delete_at
    delete_at-ok ctx name o b (err e) v at_key ran = cc
    delete_at-ok ctx name o b (ok key) v at_key ran =
        delete_found-ok ctx name key o b (Memory.get r.store key) v at_key refl ran

    -- A `Delete` that came back with an object has deleted the intent at the target that the labels of
    -- the stored config name, the client has accepted that, and the entry under the key of the request
    -- is gone; no other object has changed.
    pub delete-HasDeleted :
        (ctx : Option Text) (name : Text) (o : Object) (b : Bool)
        → IsStore r.store
        → delete {U = U} client_set_intent deep_equal r ctx name ≡ done (r', ok (o, b))
        → HasDeleted ctx name o
    unfolding delete
    delete-HasDeleted ctx name o b v ran =
        delete_at-ok ctx name o b (get_key r.is_namespaced ctx name) v refl ran

    delete_for-err :
        (key tk : Key) (c : Config) (e : ApiError E U) (t : Result StoreError (Context D))
        → IsStore r.store
        → delete_for {U = U} client_set_intent deep_equal r key tk c t ≡ done (r', err e)
        → IsKept r r'
    unfolding delete_for
    delete_for-err key tk c e (err f) v ran = IsKept-same r r' ran
    delete_for-err key tk c e (ok tctx) v ran =
        let (same, changed) =
          intended-err client_set_intent deep_equal r r' deleted (config c) (config c, true)
            (Contract.delete key) _ _ e v ran in
        (same, changed.views)

    delete_target-err :
        (key : Key) (c : Config) (e : ApiError E U) (k : Result KeyError Key)
        → IsStore r.store
        → delete_target {U = U} client_set_intent deep_equal r key c k ≡ done (r', err e)
        → IsKept r r'
    unfolding delete_target
    delete_target-err key c e (err f) v ran = IsKept-same r r' ran
    delete_target-err key c e (ok tk) v ran =
        delete_for-err key tk c e (Memory.get r.target_store tk) v ran

    delete_found-err :
        (name : Text) (key : Key) (e : ApiError E U) (f : Result StoreError Object)
        → IsStore r.store
        → delete_found {U = U} client_set_intent deep_equal r name key f ≡ done (r', err e)
        → IsKept r r'
    unfolding delete_found
    delete_found-err name key e (err f) v ran = IsKept-same r r' ran
    delete_found-err name key e (ok (other m)) v ran = IsKept-same r r' ran
    delete_found-err name key e (ok (config c)) v ran =
        delete_target-err key c e (get_target_key c.meta.labels) v ran

    delete_at-err :
        (name : Text) (e : ApiError E U) (k : Result KeyError Key)
        → IsStore r.store
        → delete_at {U = U} client_set_intent deep_equal r name k ≡ done (r', err e)
        → IsKept r r'
    unfolding delete_at
    delete_at-err name e (err f) v ran = IsKept-same r r' ran
    delete_at-err name e (ok key) v ran = delete_found-err name key e (Memory.get r.store key) v ran

    -- A `Delete` that came back with an error, be it the data server's, has left the objects and the
    -- watchers as they were.
    pub delete_failed :
        (ctx : Option Text) (name : Text) (e : ApiError E U)
        → IsStore r.store
        → delete {U = U} client_set_intent deep_equal r ctx name ≡ done (r', err e)
        → IsKept r r'
    unfolding delete
    delete_failed ctx name e v ran = delete_at-err name e (get_key r.is_namespaced ctx name) v ran
