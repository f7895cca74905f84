-- ===== src/Config/Rest/Write/Stored.antt =====
-- The last steps of a handler that writes: the data server has answered, then the store is called
-- and the watchers are told.
use apiserver_runtime_exampl.Base.{
  ok-injective, ℕ, ◌≡◌, refl, sym, ap, ◌≢◌, ◌∙◌, subst, Bool, true, Option, none, some, done,
  >>=-eq-done, done-injective, Result, ok, err, is_ok,
}
use apiserver_runtime_exampl.Watch.{EventType}
use apiserver_runtime_exampl.Watch.Watchers.{notify_watchers}
use apiserver_runtime_exampl.Store.Key.{Key}
use apiserver_runtime_exampl.Store.Contract.{
  StoreError, Call, View, create, update, delete, create_spec, update_spec, delete_spec, call_spec,
}
use apiserver_runtime_exampl.Store.Memory.{Mem, run_call}
use apiserver_runtime_exampl.Store.Memory.Refines.{view, IsStore, run_call-Meets}
use apiserver_runtime_exampl.Target.Context.{SetIntentRequest, IntentError}
use apiserver_runtime_exampl.Config.Keys.{Object}
use apiserver_runtime_exampl.Config.Rest.{Cfg, ApiError}
use apiserver_runtime_exampl.Config.Rest.Write.{notify, stored, intended}

module _ {ℓ} {T : Type ℓ} (s : View T) (e : StoreError) where
  create_spec-err :
      (k : Key) (x : T) (o : Option T)
      → (create_spec s k x o).result ≡ err e
      → (j : Key) → (create_spec s k x o).state j ≡ s j
  create_spec-err k x none h = cc
  create_spec-err k x (some old) h = λ j. refl

  update_spec-err :
      (deep_equal : T → T → Bool) (k : Key) (x : T) (o : Option T)
      → (update_spec deep_equal s k x o).result ≢ err e
  update_spec-err deep_equal k x none h = cc
  update_spec-err deep_equal k x (some old) h = cc

  delete_spec-err : (k : Key) (o : Option T) → (delete_spec s k o).result ≢ err e
  delete_spec-err k none h = cc
  delete_spec-err k (some old) h = cc

  -- A call that the contract refuses leaves the view as it is.
  call_spec-err :
      (deep_equal : T → T → Bool) (c : Call T)
      → (call_spec deep_equal s c).result ≡ err e
      → (j : Key) → (call_spec deep_equal s c).state j ≡ s j
  call_spec-err deep_equal (create k x) h = create_spec-err k x (s k) h
  call_spec-err deep_equal (update k x) h = absurd (update_spec-err deep_equal k x (s k) h)
  call_spec-err deep_equal (delete k) h = absurd (delete_spec-err k (s k) h)

-- What a handler that came back has done: `w` is the data server after it, `s` the objects.
pub record HasChanged {D W : Type 0} (r r' : Cfg D W) (w : W) (s : View Object) : Type 0 where
  pub valid : IsStore r'.store
  pub device : r'.device ≡ w
  pub scope : r'.is_namespaced ≡ r.is_namespaced
  pub targets : r'.target_store ≡ r.target_store
  pub views : (j : Key) → view r'.store j ≡ s j

module _ {D W E U A : Type 0} (client_set_intent : W → ℕ → SetIntentRequest → W × Option E)
    (deep_equal : Object → Object → Bool) (r r' : Cfg D W) (t : EventType) (obj : Object) where
  stored-ok :
      (a b : A) (w : W) (s : View Object) (store : Mem Object) (res : Result StoreError (Unit {0}))
      → IsStore store
      → ((j : Key) → view store j ≡ s j)
      → stored {E = E} {U = U} client_set_intent deep_equal
          (record r { device = w })
          t
          obj
          a
          (store, res)
        ≡ done (r', ok b)
      → (res ≡ ok tt) × (b ≡ a) × HasChanged r r' w s
  unfolding stored notify
  stored-ok a b w s store (err e) v views ran = cc
  stored-ok a b w s store (ok tt) v views ran =
      let (ws, told, same) =
        >>=-eq-done (notify_watchers r.watchers (record { event_type = t; object = obj })) _ ran in
      let after = done-injective same in
      (
        refl,
        sym (ok-injective (ap (λ p. p.1) after)),
        subst (λ q. HasChanged r q w s) (ap (λ p. p.0) after)
            (record { valid = v; device = refl; scope = refl; targets = refl; views = views }),
      )

  stored-err :
      (a : A) (w : W) (s : View Object) (store : Mem Object) (res : Result StoreError (Unit {0}))
      (e : ApiError E U)
      → IsStore store
      → ((j : Key) → view store j ≡ s j)
      → stored {E = E} {U = U} client_set_intent deep_equal
          (record r { device = w })
          t
          obj
          a
          (store, res)
        ≡ done (r', err e)
      → ((f : StoreError) × (res ≡ err f)) × (r'.watchers ≡ r.watchers) × HasChanged r r' w s
  unfolding stored notify
  stored-err a w s store (err f) e v views ran =
      let after = ap (λ p. p.0) (done-injective ran) in
      (
        (f, refl),
        ap (λ q. q.watchers) (sym after),
        subst (λ q. HasChanged r q w s) after
            (record { valid = v; device = refl; scope = refl; targets = refl; views = views }),
      )
  stored-err a w s store (ok _) e v views ran =
      let (ws, told, same) =
        >>=-eq-done (notify_watchers r.watchers (record { event_type = t; object = obj })) _ ran in
      cc

  -- A handler that came back with an object: the client and the store took the change.
  pub intended-ok :
      (a b : A) (c : Call Object) (w : W) (ir : Result (IntentError E) (Unit {0}))
      → IsStore r.store
      → intended {U = U} client_set_intent deep_equal r t obj a c (w, ir) ≡ done (r', ok b)
      → (is_ok ir ≡ true)
        × (b ≡ a)
        × ((call_spec deep_equal (view r.store) c).result ≡ ok tt)
        × HasChanged r r' w (call_spec deep_equal (view r.store) c).state
  unfolding intended
  intended-ok a b c w (err e) v ran = cc
  intended-ok a b c w (ok _) v ran =
      let ((store, res), called, rest) = >>=-eq-done (run_call deep_equal r.store c) _ ran in
      let (valid, views, result, _) = run_call-Meets deep_equal r.store store c res v called in
      let (good, same, changed) =
        stored-ok a b w (call_spec deep_equal (view r.store) c).state store res valid views rest in
      (refl, same, sym result ∙ good, changed)

  -- A handler that came back with an error: the objects and the watchers are as before.
  pub intended-err :
      (a : A) (c : Call Object) (w : W) (ir : Result (IntentError E) (Unit {0})) (e : ApiError E U)
      → IsStore r.store
      → intended {U = U} client_set_intent deep_equal r t obj a c (w, ir) ≡ done (r', err e)
      → (r'.watchers ≡ r.watchers) × HasChanged r r' w (view r.store)
  unfolding intended
  intended-err a c w (err f) e v ran =
      let after = ap (λ p. p.0) (done-injective ran) in
      (
        ap (λ q. q.watchers) (sym after),
        subst (λ q. HasChanged r q w (view r.store)) after
            (record { valid = v; device = refl; scope = refl; targets = refl; views = λ j. refl }),
      )
  intended-err a c w (ok _) e v ran =
      let ((store, res), called, rest) = >>=-eq-done (run_call deep_equal r.store c) _ ran in
      let (valid, views, result, _) = run_call-Meets deep_equal r.store store c res v called in
      let ((f, bad), same, changed) =
        stored-err a w (call_spec deep_equal (view r.store) c).state store res e valid views rest in
      let kept = call_spec-err (view r.store) f deep_equal c (sym result ∙ bad) in
      (
        same,
        record {
          valid = changed.valid;
          device = changed.device;
          scope = changed.scope;
          targets = changed.targets;
          views = λ j. changed.views j ∙ kept j;
        },
      )
