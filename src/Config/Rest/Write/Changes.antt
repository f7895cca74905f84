-- ===== src/Config/Rest/Write/Changes.antt =====
-- What the handlers of the REST storage have changed when they come back.
use apiserver_runtime_exampl.Base.{
  ℕ, ◌≡◌, refl, sym, ap, ◌∙◌, Bool, true, Option, none, some, Text, done, >>=-eq-done,
  done-injective, Result, ok, err, is_ok,
}
use apiserver_runtime_exampl.Watch.{added}
use apiserver_runtime_exampl.Api.Config.{Config}
use apiserver_runtime_exampl.Store.Key.{Key, key_eq}
use apiserver_runtime_exampl.Store.Contract
use apiserver_runtime_exampl.Store.Contract.{
  StoreError, View, put, remove, create_spec, delete_spec,
}
use apiserver_runtime_exampl.Store.Memory
use apiserver_runtime_exampl.Store.Memory.Refines.{view, IsStore}
use apiserver_runtime_exampl.Target.Context.{Context, SetIntentRequest, set_intent}
use apiserver_runtime_exampl.Config.Keys.{Object, config, other, KeyError, get_keys}
use apiserver_runtime_exampl.Config.Rest.{Cfg, ApiError, Answer, set_uid, first_blob}
use apiserver_runtime_exampl.Config.Rest.Write.{create_for, create_object, create_at, create}
use apiserver_runtime_exampl.Config.Rest.Write.Stored.{HasChanged, intended-ok, intended-err}

create_spec-ok {ℓ} :
    {T : Type ℓ} (s : View T) (k : Key) (x : T) (o : Option T)
    → (create_spec s k x o).result ≡ ok tt
    → (o ≡ none) × ((j : Key) → (create_spec s k x o).state j ≡ put s k x j)
create_spec-ok s k x none h = (refl, λ j. refl)
create_spec-ok s k x (some old) h = cc

-- The objects and the watchers are as before.
abbrev pub IsKept : {D W : Type 0} → Cfg D W → Cfg D W → Type 0
IsKept r r' = (r'.watchers ≡ r.watchers) × ((j : Key) → view r'.store j ≡ view r.store j)

pub IsKept-same :
    {D W E U A : Type 0} (r r' : Cfg D W) {e : ApiError E U} {a : Result (ApiError E U) A}
    → ◌≡◌ {A = Answer D W E U A} (done (r, a)) (done (r', err e))
    → IsKept r r'
IsKept-same r r' same =
    let after = ap (λ p. p.0) (done-injective same) in
    (ap (λ q. q.watchers) (sym after), λ j. ap (λ q. view q.store j) (sym after))

module _ {D W E : Type 0} (client_set_intent : W → ℕ → SetIntentRequest → W × Option E)
    (deep_equal : Object → Object → Bool) (r r' : Cfg D W) where
  -- A config was created: it is entered under a key that was free, and its target has its intent.
  pub record HasCreated (ctx : Option Text) (obj : Object) (uid : Text) (o : Object) : Type 0 where
    pub key : Key
    pub target_key : Key
    pub entered : Config
    pub context : Context D
    pub keys : get_keys r.is_namespaced ctx obj ≡ ok (key, target_key)
    pub is_config : set_uid obj uid ≡ config entered
    pub answer : o ≡ config entered
    pub target : Memory.get r.target_store target_key ≡ ok context
    pub free : view r.store key ≡ none
    pub accepted : is_ok (set_intent client_set_intent r.device context target_key entered).1 ≡ true
    pub changed :
        HasChanged r r'
          (set_intent client_set_intent r.device context target_key entered).0
          (put (view r.store) key o)

  module _ {U : Type 0} where
    create_object-ok :
        (ctx : Option Text) (obj : Object) (uid : Text) (key tk : Key) (x o : Object)
        → IsStore r.store
        → get_keys r.is_namespaced ctx obj ≡ ok (key, tk)
        → set_uid obj uid ≡ x
        → create_object {U = U} client_set_intent deep_equal r key tk x ≡ done (r', ok o)
        → HasCreated ctx obj uid o
    unfolding create_object create_for
    create_object-ok ctx obj uid key tk (other m) o v keys is ran = cc
    create_object-ok ctx obj uid key tk (config c) o v keys is ran =
        let (blob, _, rest) = >>=-eq-done (first_blob c.spec.config) _ ran in
        target_found (Memory.get r.target_store tk) refl rest
      where
        target_found :
            (t : Result StoreError (Context D))
            → Memory.get r.target_store tk ≡ t
            → create_for {U = U} client_set_intent deep_equal r key tk c t ≡ done (r', ok o)
            → HasCreated ctx obj uid o
        target_found (err e) at_key rest = cc
        target_found (ok tctx) at_key rest =
            let (good, same, result, changed) =
              intended-ok client_set_intent deep_equal r r' added (config c) (config c) o
                (Contract.create key (config c)) _ _ v rest in
            let (free, views) =
              create_spec-ok (view r.store) key (config c) (view r.store key) result in
            record {
              key = key;
              target_key = tk;
              entered = c;
              context = tctx;
              keys = keys;
              is_config = is;
              answer = same;
              target = at_key;
              free = free;
              accepted = good;
              changed = record {
                valid = changed.valid;
                device = changed.device;
                scope = changed.scope;
                targets = changed.targets;
                views = λ j.
                    changed.views j ∙ views j ∙ ap (λ y. put (view r.store) key y j) (sym same);
              };
            }

    create_at-ok :
        (ctx : Option Text) (obj : Object) (uid : Text) (o : Object)
        (ks : Result KeyError (Key × Key))
        → IsStore r.store
        → get_keys r.is_namespaced ctx obj ≡ ks
        → create_at {U = U} client_set_intent deep_equal r uid obj ks ≡ done (r', ok o)
        → HasCreated ctx obj uid o
    unfolding create_at
    create_at-ok ctx obj uid o (err e) v keys ran = cc
    create_at-ok ctx obj uid o (ok (key, tk)) v keys ran =
        create_object-ok ctx obj uid key tk (set_uid obj uid) o v keys refl ran

    -- A `Create` that came back with an object has set the intent of that config, with the new UID, at
    -- the target that its labels name, and has entered it under a key that was free, the namespace of
    -- the request and the name of the object; no other object has changed.
    pub create-HasCreated :
        (ctx : Option Text) (uid : Text) (obj o : Object)
        → IsStore r.store
        → create {U = U} client_set_intent deep_equal r ctx uid obj ≡ done (r', ok o)
        → HasCreated ctx obj uid o
    unfolding create
    create-HasCreated ctx uid obj o v ran =
        create_at-ok ctx obj uid o (get_keys r.is_namespaced ctx obj) v refl ran

    create_object-err :
        (key tk : Key) (x : Object) (e : ApiError E U)
        → IsStore r.store
        → create_object {U = U} client_set_intent deep_equal r key tk x ≡ done (r', err e)
        → IsKept r r'
    unfolding create_object create_for
    create_object-err key tk (other m) e v ran = IsKept-same r r' ran
    create_object-err key tk (config c) e v ran =
        let (blob, _, rest) = >>=-eq-done (first_blob c.spec.config) _ ran in
        target_found (Memory.get r.target_store tk) rest
      where
        target_found :
            (t : Result StoreError (Context D))
            → create_for {U = U} client_set_intent deep_equal r key tk c t ≡ done (r', err e)
            → IsKept r r'
        target_found (err f) rest = IsKept-same r r' rest
        target_found (ok tctx) rest =
            let (same, changed) =
              intended-err client_set_intent deep_equal r r' added (config c) (config c)
                (Contract.create key (config c)) _ _ e v rest in
            (same, changed.views)

    create_at-err :
        (uid : Text) (obj : Object) (e : ApiError E U) (ks : Result KeyError (Key × Key))
        → IsStore r.store
        → create_at {U = U} client_set_intent deep_equal r uid obj ks ≡ done (r', err e)
        → IsKept r r'
    unfolding create_at
    create_at-err uid obj e (err f) v ran = IsKept-same r r' ran
    create_at-err uid obj e (ok (key, tk)) v ran =
        create_object-err key tk (set_uid obj uid) e v ran

    -- A `Create` that came back with an error has left the objects and the watchers as they were.
    pub create_failed :
        (ctx : Option Text) (uid : Text) (obj : Object) (e : ApiError E U)
        → IsStore r.store
        → create {U = U} client_set_intent deep_equal r ctx uid obj ≡ done (r', err e)
        → IsKept r r'
    unfolding create
    create_failed ctx uid obj e v ran =
        create_at-err uid obj e (get_keys r.is_namespaced ctx obj) v ran
