-- ===== src/Config/Rest/Write/Updates.antt =====
-- What `Update` has changed when it comes back.
use apiserver_runtime_exampl.Base.{
  ℕ, ◌≡◌, refl, sym, ap, ◌∙◌, Bool, true, false, ◌&&◌, Bool-cases, inl, inr, Option, none, some,
  Text, done, >>=-eq-done, Result, ok, err, is_ok,
}
use apiserver_runtime_exampl.Watch.{added}
use apiserver_runtime_exampl.Api.Config.{Config}
use apiserver_runtime_exampl.Store.Key.{Key, key_eq}
use apiserver_runtime_exampl.Store.Contract
use apiserver_runtime_exampl.Store.Contract.{StoreError, View, put, update_spec}
use apiserver_runtime_exampl.Store.Memory
use apiserver_runtime_exampl.Store.Memory.Refines.{view, IsStore}
use apiserver_runtime_exampl.Target.Context.{Context, SetIntentRequest, set_intent}
use apiserver_runtime_exampl.Config.Keys.{Object, config, other, KeyError, get_key, get_target_key}
use apiserver_runtime_exampl.Config.Rest.{Cfg, first_blob}
use apiserver_runtime_exampl.Config.Rest.Write.{
  update_for, update_target, update_new, update_old, update_found, update_at, update, is_not_found,
}
use apiserver_runtime_exampl.Config.Rest.Write.Stored.{HasChanged, intended-ok}

update_spec-put {ℓ} :
    {T : Type ℓ} (deep_equal : T → T → Bool) (s : View T) (k : Key) (x : T) (o : Option T)
    → (j : Key) → (update_spec deep_equal s k x o).state j ≡ put s k x j
update_spec-put deep_equal s k x none j = refl
update_spec-put deep_equal s k x (some y) j = refl

module _ {D W E U : Type 0} (client_set_intent : W → ℕ → SetIntentRequest → W × Option E)
    (deep_equal : Object → Object → Bool) (r r' : Cfg D W)
    (updated : Object → Result U Object) where
  -- A config was updated: the target that the new labels name has its new intent, and it is entered.
  pub record HasUpdated (ctx : Option Text) (name : Text) (o : Object) (created : Bool)
      : Type 0 where
    pub key : Key
    pub target_key : Key
    pub old : Config
    pub entered : Config
    pub context : Context D
    pub at_key : get_key r.is_namespaced ctx name ≡ ok key
    pub there : Memory.get r.store key ≡ ok (config old)
    pub made : updated (config old) ≡ ok (config entered)
    pub labels : get_target_key entered.meta.labels ≡ ok target_key
    pub target : Memory.get r.target_store target_key ≡ ok context
    pub answer : (o ≡ config entered) × (created ≡ false)
    pub accepted : is_ok (set_intent client_set_intent r.device context target_key entered).1 ≡ true
    pub changed :
        HasChanged r r'
          (set_intent client_set_intent r.device context target_key entered).0
          (put (view r.store) key o)

  module _ (ctx : Option Text) (name : Text) (o : Object) (b : Bool) (v : IsStore r.store) where
    update_for-ok :
        (key tk : Key) (old c : Config) (t : Result StoreError (Context D))
        → get_key r.is_namespaced ctx name ≡ ok key
        → Memory.get r.store key ≡ ok (config old)
        → updated (config old) ≡ ok (config c)
        → get_target_key c.meta.labels ≡ ok tk
        → Memory.get r.target_store tk ≡ t
        → update_for {U = U} client_set_intent deep_equal r false key tk c t ≡ done (r', ok (o, b))
        → HasUpdated ctx name o b
    unfolding update_for
    update_for-ok key tk old c (err e) at_key there made labels target ran = cc
    update_for-ok key tk old c (ok tctx) at_key there made labels target ran =
        let (blob, _, rest) = >>=-eq-done (first_blob c.spec.config) _ ran in
        let (good, same, _, changed) =
          intended-ok client_set_intent deep_equal r r' added (config c) (config c, false) (o, b)
            (Contract.update key (config c)) _ _ v rest in
        let is : o ≡ config c = ap (λ p. p.0) same in
        record {
          key = key;
          target_key = tk;
          old = old;
          entered = c;
          context = tctx;
          at_key = at_key;
          there = there;
          made = made;
          labels = labels;
          target = target;
          answer = (is, ap (λ p. p.1) same);
          accepted = good;
          changed = record {
            valid = changed.valid;
            device = changed.device;
            scope = changed.scope;
            targets = changed.targets;
            views = λ j.
                changed.views j
                ∙ update_spec-put deep_equal (view r.store) key (config c) (view r.store key) j
                ∙ ap (λ y. put (view r.store) key y j) (sym is);
          };
        }

    update_target-ok :
        (key : Key) (old c : Config) (k : Result KeyError Key)
        → get_key r.is_namespaced ctx name ≡ ok key
        → Memory.get r.store key ≡ ok (config old)
        → updated (config old) ≡ ok (config c)
        → get_target_key c.meta.labels ≡ k
        → update_target {U = U} client_set_intent deep_equal r false key c k ≡ done (r', ok (o, b))
        → HasUpdated ctx name o b
    unfolding update_target
    update_target-ok key old c (err e) at_key there made labels ran = cc
    update_target-ok key old c (ok tk) at_key there made labels ran =
        update_for-ok key tk old c (Memory.get r.target_store tk) at_key there made labels refl ran

    update_new-ok :
        (key : Key) (old : Config) (n : Result U Object)
        → get_key r.is_namespaced ctx name ≡ ok key
        → Memory.get r.store key ≡ ok (config old)
        → updated (config old) ≡ n
        → update_new client_set_intent deep_equal r false key n ≡ done (r', ok (o, b))
        → HasUpdated ctx name o b
    unfolding update_new
    update_new-ok key old (err e) at_key there made ran = cc
    update_new-ok key old (ok (other m)) at_key there made ran = cc
    update_new-ok key old (ok (config c)) at_key there made ran =
        update_target-ok key old c (get_target_key c.meta.labels) at_key there made refl ran

    update_found-ok :
        (key : Key) (force : Bool) (f : Result StoreError Object)
        → get_key r.is_namespaced ctx name ≡ ok key
        → Memory.get r.store key ≡ f
        → update_found client_set_intent deep_equal r key updated force f ≡ done (r', ok (o, b))
        → HasUpdated ctx name o b
    unfolding update_found update_old
    update_found-ok key force (err e) at_key there ran =
        elim (Bool-cases (force && is_not_found e)) [
          | inl create ↦ let bad = (rw create at ran) in cc
          | inr fail ↦ let bad = (rw fail at ran) in cc
        ]
    update_found-ok key force (ok (other m)) at_key there ran = cc
    update_found-ok key force (ok (config old)) at_key there ran =
        update_new-ok key old (updated (config old)) at_key there refl ran

    update_at-ok :
        (force : Bool) (k : Result KeyError Key)
        → get_key r.is_namespaced ctx name ≡ k
        → update_at client_set_intent deep_equal r updated force k ≡ done (r', ok (o, b))
        → HasUpdated ctx name o b
    unfolding update_at
    update_at-ok force (err e) at_key ran = cc
    update_at-ok force (ok key) at_key ran =
        update_found-ok key force (Memory.get r.store key) at_key refl ran

  -- An `Update` that came back with an object found a config under the key of the request, has set
  -- the intent of the new config at the target that the new labels name, and has entered the new
  -- config under that key; it never reports a creation, and no other object has changed.
  pub update-HasUpdated :
      (ctx : Option Text) (name : Text) (force : Bool) (o : Object) (b : Bool)
      → IsStore r.store
      → update client_set_intent deep_equal r ctx name updated force ≡ done (r', ok (o, b))
      → HasUpdated ctx name o b
  unfolding update
  update-HasUpdated ctx name force o b v ran =
      update_at-ok ctx name o b v force (get_key r.is_namespaced ctx name) refl ran
