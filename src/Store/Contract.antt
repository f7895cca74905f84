-- ===== src/Store/Contract.antt =====
-- pkg/store/store.go: what a `Storer` promises. Every operation is described on the abstract view
-- of a store, a function from keys to objects, with the events that it owes to the watchers.
use apiserver_runtime_exampl.Base.{
  Bool, Option, none, some, List, [], ◌∷◌, if◌then◌else◌, Result, ok, err, ◌≟◌,
}
use apiserver_runtime_exampl.Watch.{Event, added, modified, deleted}
use apiserver_runtime_exampl.Watch.IdAllocator.{IdError}
use apiserver_runtime_exampl.Store.Key.{Key, key_eq}

-- The errors of the stores, by the message that the source formats.
pub data StoreError : Type 0 where
  not_found duplicate_entry : Key → StoreError
  out_of_resources : StoreError
  cannot_add : IdError → StoreError

-- The operations of the interface that change a store.
pub data Call {ℓ} (T : Type ℓ) : Type ℓ where
  create update : Key → T → Call T
  delete : Key → Call T

abbrev pub View {ℓ} : Type ℓ → Type ℓ
View T = Key → Option T

-- The state after a call, its result, and the events that it owes.
pub record Reply {ℓ} (T : Type ℓ) : Type ℓ where
  pub state : View T
  pub result : Result StoreError (Unit {0})
  pub events : List (Event T)

module _ {ℓ} {T : Type ℓ} where
  abbrev pub key_of : Call T → Key
  key_of (create k x) = k
  key_of (update k x) = k
  key_of (delete k) = k

  abbrev pub put : View T → Key → T → View T
  put s k x j = if k ≟ j then some x else s j

  abbrev pub remove : View T → Key → View T
  remove s k j = if k ≟ j then none else s j

  -- An existing object is not created again.
  abbrev pub create_spec : View T → Key → T → Option T → Reply T
  create_spec s k x none = record {
    state = put s k x;
    result = ok tt;
    events = record { event_type = added; object = x } ∷ [];
  }
  create_spec s k x (some old) = record { state = s; result = err (duplicate_entry k); events = [] }

  -- A missing key is deleted without an error.
  abbrev pub delete_spec : View T → Key → Option T → Reply T
  delete_spec s k none = record { state = s; result = ok tt; events = [] }
  delete_spec s k (some old) = record {
    state = remove s k;
    result = ok tt;
    events = record { event_type = deleted; object = old } ∷ [];
  }

  module _ (deep_equal : T → T → Bool) where
    -- An update that changes nothing owes no event, one of a missing key creates it.
    abbrev pub update_spec : View T → Key → T → Option T → Reply T
    update_spec s k x none = record {
      state = put s k x;
      result = ok tt;
      events = record { event_type = added; object = x } ∷ [];
    }
    update_spec s k x (some old) = record {
      state = put s k x;
      result = ok tt;
      events = if deep_equal old x then [] else record { event_type = modified; object = x } ∷ [];
    }

    abbrev pub call_spec : View T → Call T → Reply T
    call_spec s (create k x) = create_spec s k x (s k)
    call_spec s (update k x) = update_spec s k x (s k)
    call_spec s (delete k) = delete_spec s k (s k)
