-- ===== src/Reconciler/DataStore/Update/Recorded.antt =====
-- What `updateDataStore` has done when it comes back without an error.
use apiserver_runtime_exampl.Base.{
  ℕ, ◌≡◌, refl, sym, ap, ◌∙◌, subst, ◌⊎◌, inl, inr, Bool, false, Bool-cases, Option, none, some,
  arith, text_eq, Outcome, done, >>=-eq-done, done-injective, Result, ok, err,
}
use apiserver_runtime_exampl.Store.Key.{Key, key_string}
use apiserver_runtime_exampl.Store.Contract
use apiserver_runtime_exampl.Store.Contract.{StoreError, put}
use apiserver_runtime_exampl.Store.Memory
use apiserver_runtime_exampl.Store.Memory.{Mem, run_call}
use apiserver_runtime_exampl.Store.Memory.Refines.{view, IsStore, run_call-Meets, get-view}
use apiserver_runtime_exampl.Target.Context.{Context}
use apiserver_runtime_exampl.Reconciler.DataStore.{
  DataStoreRequest, DataStoreResponse, is_data_store_changed,
}
use apiserver_runtime_exampl.Reconciler.DataStore.Update.{
  DataServer, recorded, created, create_at, deleted, found, with_client, with_context, with_request,
  update_data_store,
}

-- If a data store counts as unchanged, its name, its schema, and its target's type and address are
-- those of the request.
pub is_data_store_changed-false :
    (req : DataStoreRequest) (rsp : DataStoreResponse)
    → is_data_store_changed req rsp ≡ false
    → (req.name ≡ rsp.name)
      × (req.schema.name ≡ rsp.schema.name)
      × (req.schema.vendor ≡ rsp.schema.vendor)
      × (req.schema.version ≡ rsp.schema.version)
      × (req.target_type ≡ rsp.target_type)
      × (req.address ≡ rsp.address)
unfolding is_data_store_changed
is_data_store_changed-false req rsp h =
    (ground arith, ground arith, ground arith, ground arith, ground arith, ground arith)

-- The store after it: the target's context holds the request.
abbrev pub HasRecorded :
    Mem (Context DataStoreRequest)
    → Key
    → Context DataStoreRequest
    → DataStoreRequest
    → Mem (Context DataStoreRequest)
    → Type 0
HasRecorded r key tctx req r' =
    IsStore r'
    × ((j : Key) → view r' j ≡ put (view r) key (record tctx { data_store = some req }) j)

module _ {W F : Type 0} (server : DataServer W F) (r : Mem (Context DataStoreRequest))
    (key : Key) where
  -- The data server has a data store that counts as unchanged, and nothing was done.
  abbrev pub IsUnchanged :
      Context DataStoreRequest → DataStoreRequest → W → W → Mem (Context DataStoreRequest) → Type 0
  IsUnchanged tctx req w w' r' =
      (c : ℕ) × (rsp : DataStoreResponse) × (tctx.client ≡ some c)
      × (server.get_data_store w c (key_string key) ≡ (w', ok rsp))
      × (is_data_store_changed req rsp ≡ false)
      × (r' ≡ r)

  module _ {E : Type 0} (deep_equal : Context DataStoreRequest → Context DataStoreRequest → Bool)
      (v : IsStore r) (tctx : Context DataStoreRequest) (there : view r key ≡ some tctx)
      (req : DataStoreRequest) (w' : W) (r' : Mem (Context DataStoreRequest)) where
    created-ok :
        (answer : W × Option F)
        → created {E = E} server deep_equal r key tctx req answer ≡ done (w', r', ok tt)
        → HasRecorded r key tctx req r'
    unfolding created recorded
    created-ok (w, some f) ran = cc
    created-ok (w, none) ran =
        let next = record tctx { data_store = some req } in
        let ((q, res), called, rest) =
          >>=-eq-done (run_call deep_equal r (Contract.update key next)) _ ran in
        let (valid, views, _, _) =
          run_call-Meets deep_equal r q (Contract.update key next) res v called in
        recorded_by q res valid (λ j. views j ∙ rw there) rest
      where
        recorded_by :
            (q : Mem (Context DataStoreRequest)) (res : Result StoreError (Unit {0}))
            → IsStore q
            → ((j : Key) → view q j ≡ put (view r) key (record tctx { data_store = some req }) j)
            → recorded {E = E} server deep_equal r key w (q, res) ≡ done (w', r', ok tt)
            → HasRecorded r key tctx req r'
        recorded_by q (err e) valid views rest = cc
        recorded_by q (ok _) valid views rest =
            let after = ap (λ p. p.1) (done-injective rest) in
            (subst IsStore after valid, λ j. ap (λ p. view p j) (sym after) ∙ views j)

    create_at-ok :
        (c : ℕ) (w : W)
        → create_at {E = E} server deep_equal r key tctx c req w ≡ done (w', r', ok tt)
        → HasRecorded r key tctx req r'
    unfolding create_at
    create_at-ok c w ran = created-ok (server.create_data_store w c req) ran

    deleted-ok :
        (c : ℕ) (answer : W × Option F)
        → deleted {E = E} server deep_equal r key tctx c req answer ≡ done (w', r', ok tt)
        → HasRecorded r key tctx req r'
    unfolding deleted
    deleted-ok c (w, none) ran = create_at-ok c w ran
    deleted-ok c (w, some f) ran = elim (Bool-cases (server.is_unknown f)) [
      | inl unknown ↦ create_at-ok c w (rw unknown at ran)
      | inr known ↦ let bad = (rw known at ran) in cc
    ]

    found-ok :
        (c : ℕ) (w₀ : W) (answer : W × Result F DataStoreResponse)
        → tctx.client ≡ some c
        → server.get_data_store w₀ c (key_string key) ≡ answer
        → found {E = E} server deep_equal r key tctx c req answer ≡ done (w', r', ok tt)
        → IsUnchanged tctx req w₀ w' r' ⊎ HasRecorded r key tctx req r'
    unfolding found
    found-ok c w₀ (w, err f) client got ran = elim (Bool-cases (server.is_unknown f)) [
      | inl unknown ↦ inr (create_at-ok c w (rw unknown at ran))
      | inr known ↦ let bad = (rw known at ran) in cc
    ]
    found-ok c w₀ (w, ok rsp) client got ran = elim (Bool-cases (is_data_store_changed req rsp)) [
      | inl changed ↦
          inr (deleted-ok c (server.delete_data_store w c (key_string key)) (rw changed at ran))
      | inr same ↦
          let after = done-injective (rw same at ran) in
          inl (c, rsp, client, got ∙ ap (λ p. (p.0, ok rsp)) after, same, sym (ap (λ p. p.1) after))
    ]

    with_client-ok :
        (w : W) (client : Option ℕ)
        → tctx.client ≡ client
        → with_client {E = E} server deep_equal r key tctx client req w ≡ done (w', r', ok tt)
        → IsUnchanged tctx req w w' r' ⊎ HasRecorded r key tctx req r'
    unfolding with_client
    with_client-ok w none e ran = cc
    with_client-ok w (some c) e ran =
        found-ok c w (server.get_data_store w c (key_string key)) e refl ran

  -- If `updateDataStore` came back without an error, the request was made, the target has a context,
  -- and either the data server already has a data store that does not differ from the request, and
  -- nothing was done, or the context holds the request and no other context has changed.
  pub update_data_store-ok :
      {E : Type 0} (deep_equal : Context DataStoreRequest → Context DataStoreRequest → Bool)
      (request : Outcome (Result E DataStoreRequest)) (w w' : W)
      (r' : Mem (Context DataStoreRequest))
      → IsStore r
      → update_data_store server deep_equal r key request w ≡ done (w', r', ok tt)
      → (req : DataStoreRequest) × (tctx : Context DataStoreRequest) × (request ≡ done (ok req))
        × (view r key ≡ some tctx)
        × (IsUnchanged tctx req w w' r' ⊎ HasRecorded r key tctx req r')
  unfolding update_data_store with_request with_context
  update_data_store-ok {E} deep_equal request w w' r' v ran =
      let (made, e, rest) = >>=-eq-done request _ ran in requested made e rest
    where
      in_context :
          (req : DataStoreRequest) (t : Result StoreError (Context DataStoreRequest))
          → request ≡ done (ok req)
          → Memory.get r key ≡ t
          → with_context {E = E} server deep_equal r key t req w ≡ done (w', r', ok tt)
          → (req : DataStoreRequest) × (tctx : Context DataStoreRequest) × (request ≡ done (ok req))
            × (view r key ≡ some tctx)
            × (IsUnchanged tctx req w w' r' ⊎ HasRecorded r key tctx req r')
      in_context req (err f) e there rest = cc
      in_context req (ok tctx) e there rest = (
        req,
        tctx,
        e,
        get-view r key there,
        with_client-ok deep_equal v tctx (get-view r key there) req w' r' w tctx.client refl rest,
      )

      requested :
          (made : Result E DataStoreRequest)
          → request ≡ done made
          → with_request {E = E} server deep_equal r key made w ≡ done (w', r', ok tt)
          → (req : DataStoreRequest) × (tctx : Context DataStoreRequest) × (request ≡ done (ok req))
            × (view r key ≡ some tctx)
            × (IsUnchanged tctx req w w' r' ⊎ HasRecorded r key tctx req r')
      requested (err f) e rest = cc
      requested (ok req) e rest = in_context req (Memory.get r key) e refl rest
