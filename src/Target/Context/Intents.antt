-- ===== src/Target/Context/Intents.antt =====
-- What reaches the data server when an intent is set.
use apiserver_runtime_exampl.Base.{
  ℕ, ◌≡◌, refl, ap, true, false, Option, some, List, [], ◌∷◌, ◌++◌, map, Text, Result, ok, err,
  is_ok, All,
}
use apiserver_runtime_exampl.Base.Fallible.{◌>>=◌}
use apiserver_runtime_exampl.Api.Config.{Config, ConfigBlob}
use apiserver_runtime_exampl.Store.Key.{Key, key_string}
use apiserver_runtime_exampl.Target.Path.{SdcPath, PathError, parse_path}
use apiserver_runtime_exampl.Target.Context.{
  Context, SetIntentRequest, IntentError, get_gvk_nsn, validate, validate_parts, path_invalid,
  update_of, updates_of, answered, send_request, set_intent,
}

-- The request that sets the intent of a config.
abbrev pub intent_request : Key → Config → List (SdcPath × Text) → SetIntentRequest
intent_request key obj updates = record {
  name = key_string key;
  intent = get_gvk_nsn obj;
  priority = obj.spec.priority;
  updates = updates;
  delete = false;
}

-- The updates are the parsed paths and the values of the blobs, in their order.
abbrev pub AreUpdatesOf : List ConfigBlob → List (SdcPath × Text) → Type 0
AreUpdatesOf blobs updates =
    (map (λ (b : ConfigBlob). parse_path b.path) blobs
      ≡ map (λ (u : SdcPath × Text). ok u.0) updates)
    × (map (λ (b : ConfigBlob). b.value) blobs ≡ map (λ (u : SdcPath × Text). u.1) updates)

module _ {E : Type 0} where
  update_of-ok :
      (key : Key) (blob : ConfigBlob) (parsed : Result PathError SdcPath)
      → is_ok parsed ≡ true
      → (p : SdcPath) × (parsed ≡ ok p) × (update_of {E = E} key blob parsed ≡ ok (p, blob.value))
  unfolding update_of
  update_of-ok key blob (ok p) h = (p, refl, refl)
  update_of-ok key blob (err e) h = cc

  updates_of-ok :
      (key : Key) (blobs : List ConfigBlob)
      → All (λ b. is_ok (parse_path b.path) ≡ true) blobs
      → (us : List (SdcPath × Text)) × (updates_of {E = E} key blobs ≡ ok us)
        × AreUpdatesOf blobs us
  unfolding updates_of
  updates_of-ok key [] h = ([], refl, (refl, refl))
  updates_of-ok key (b ∷ bs) (h, hs) =
      let (p, parsed, e) = update_of-ok key b (parse_path b.path) h in
      let (us, es, (paths, values)) = updates_of-ok key bs hs in
      ((p, b.value) ∷ us, rw (e, es), (rw (parsed, paths), ap (◌∷◌ b.value) values))

  update_of-err :
      (key : Key) (blob : ConfigBlob) (parsed : Result PathError SdcPath)
      → is_ok parsed ≡ false
      → update_of {E = E} key blob parsed ≡ err (path_invalid key blob.path)
  unfolding update_of
  update_of-err key blob (ok p) h = cc
  update_of-err key blob (err e) h = refl

  -- A chain fails if what follows its first step does.
  fails_behind {κ} :
      {A : Type 0} {B : Type κ} (m : Result (IntentError E) A) (k : A → Result (IntentError E) B)
      → ((a : A) → (e : IntentError E) × (k a ≡ err e))
      → (e : IntentError E) × ((m >>= k) ≡ err e)
  fails_behind (ok a) k h = h a
  fails_behind (err e) k h = (e, refl)

  updates_of-err :
      (key : Key) (pre post : List ConfigBlob) (b : ConfigBlob)
      → is_ok (parse_path b.path) ≡ false
      → (e : IntentError E) × (updates_of key (pre ++ b ∷ post) ≡ err e)
  unfolding updates_of
  updates_of-err key [] post b h =
      (path_invalid key b.path, rw (update_of-err key b (parse_path b.path) h))
  updates_of-err key (a ∷ pre) post b h =
      fails_behind (update_of key a (parse_path a.path)) _
        (λ u. let (e, failed) = updates_of-err key pre post b h in (e, rw failed))

  module _ {D W : Type 0} (client_set_intent : W → ℕ → SetIntentRequest → W × Option E) where
    -- A config with a path that does not parse fails, and nothing is sent to the data server, whatever
    -- stands before that path.
    pub set_intent_invalid :
        (w : W) (r : Context D) (key : Key) (obj : Config) (pre post : List ConfigBlob)
        (b : ConfigBlob)
        → obj.spec.config ≡ pre ++ b ∷ post
        → is_ok (parse_path b.path) ≡ false
        → (e : IntentError E) × (set_intent client_set_intent w r key obj ≡ (w, err e))
    unfolding set_intent send_request
    set_intent_invalid w r key obj pre post b split bad =
        let (e, failed) =
          fails_behind {B = ℕ × SetIntentRequest} (validate r key)
            (λ c. updates_of key obj.spec.config >>= λ us. ok (c, intent_request key obj us))
            (λ c.
              let (e, bad_path) = updates_of-err key pre post b bad in (e, rw (split, bad_path))) in
        (e, rw failed)

    -- With a client and a data store, and paths that all parse, `SetIntent` sends one request, with the
    -- parsed paths and the values in the order of the config, and returns what the client says.
    pub set_intent_sent :
        (w : W) (c : ℕ) (d : D) (key : Key) (obj : Config)
        → All (λ b. is_ok (parse_path b.path) ≡ true) obj.spec.config
        → (us : List (SdcPath × Text)) × AreUpdatesOf obj.spec.config us
          × (set_intent client_set_intent w
                (record { data_store = some d; client = some c })
                key
                obj
              ≡ answered (client_set_intent w c (intent_request key obj us)))
    unfolding set_intent send_request validate validate_parts
    set_intent_sent w c d key obj parse =
        let (us, e, are) = updates_of-ok key obj.spec.config parse in (us, are, rw e)
