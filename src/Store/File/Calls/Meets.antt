-- ===== src/Store/File/Calls/Meets.antt =====
-- The store in files and the contract of `Storer`: what it is to meet it.
use apiserver_runtime_exampl.Base.{
  ◌≡◌, refl, ap, ◌∙◌, subst, ◌⊎◌, inl, Option, none, some, List, [], ≟_refl, ≟_ne, Result, ok, err,
  text_eq, Outcome, done, done-injective,
}
use apiserver_runtime_exampl.Watch.{Event}
use apiserver_runtime_exampl.Watch.Watchers.{Watchers}
use apiserver_runtime_exampl.Watch.Watchers.Consistent.{IsConsistent}
use apiserver_runtime_exampl.Watch.Watchers.Received.{Received, Received-none}
use apiserver_runtime_exampl.Os.Files.{Files}
use apiserver_runtime_exampl.Os.Files.Reading.{with_bytes, without_file}
use apiserver_runtime_exampl.Store.Key.{Key, key_eq}
use apiserver_runtime_exampl.Store.Contract
use apiserver_runtime_exampl.Store.Contract.{
  StoreError, Call, View, Reply, put, remove, create_spec, update_spec, delete_spec, call_spec,
}
use apiserver_runtime_exampl.Store.File.{File, FileError, duplicate_entry, filename, get}
use apiserver_runtime_exampl.Store.File.Names.{IsFileKey, IsRooted}
use apiserver_runtime_exampl.Store.File.Reading.{on}
use apiserver_runtime_exampl.Store.File.Calls.Saved.{
  IsCoded, IsRoom, get-with_file, get-with_file_other,
}
use apiserver_runtime_exampl.Store.File.Calls.Deleted.{get-without, get-without_other}

-- What a call answers: nothing went wrong, or the key exists.
abbrev pub IsAnswer : Result FileError (Unit {0}) → Result StoreError (Unit {0}) → Type 0
IsAnswer res p =
    ((res ≡ ok tt) × (p ≡ ok tt))
    ⊎ ((k : Key) × (res ≡ err (duplicate_entry k)) × (p ≡ err (Contract.duplicate_entry k)))

module _ {ℓ κ} {O : Type ℓ} {T : Type κ} (as_type : O → Option T) (as_object : T → Option O) where
  -- An object that `Get` cannot read is not there.
  abbrev pub seen : Result FileError T → Option T
  seen (ok x) = some x
  seen (err _) = none

  abbrev pub file_view : File O T → View T
  file_view r k = seen (get as_type as_object r k)

  pub record IsFileStore (r : File O T) : Type (ℓ ⊔ κ) where
    pub rooted : IsRooted r
    pub consistent : IsConsistent r.watchers

  -- The files after a call, its result and its events are as a reply of the contract says.
  abbrev pub FileMeets : File O T → File O T → Result FileError (Unit {0}) → Reply T → Type (ℓ ⊔ κ)
  FileMeets r r' res p =
      IsFileStore r'
      × ((j : Key) → IsFileKey j → file_view r' j ≡ p.state j)
      × IsAnswer res p.result
      × Received r.watchers r'.watchers p.events

  -- What a call writes can be encoded and written.
  abbrev pub CanRun : File O T → Call T → Type (ℓ ⊔ κ)
  CanRun r (Contract.create k x) = IsCoded as_type as_object r x × IsRoom as_type as_object r k
  CanRun r (Contract.update k x) = IsCoded as_type as_object r x × IsRoom as_type as_object r k
  CanRun r (Contract.delete k) = Unit {ℓ ⊔ κ}

  pub on-IsFileStore :
      (r : File O T) (disk : Files) (ws : Watchers T)
      → IsRooted r
      → IsConsistent ws
      → IsFileStore (on r disk ws)
  on-IsFileStore r disk ws v c = record {
    rooted = record {
      rooted = v.rooted;
      first = v.first;
      rest = v.rest;
      plain = v.plain;
      is_path = v.is_path;
    };
    consistent = c;
  }

  pub FileMeets-done :
      (r r1 r' : File O T) (res res' : Result FileError (Unit {0})) (p : Reply T)
      → FileMeets r r1 res p
      → ◌≡◌ {A = Outcome (File O T × Result FileError (Unit {0}))}
          (done (r1, res))
          (done (r', res'))
      → FileMeets r r' res' p
  FileMeets-done r r1 r' res res' p m same =
      subst (λ y. FileMeets r y.0 y.1 p) (done-injective same) m

  -- A call that changes nothing.
  pub FileMeets-kept :
      (r : File O T) (res : Result FileError (Unit {0})) (p : Result StoreError (Unit {0}))
      → IsFileStore r
      → IsAnswer res p
      → FileMeets r r res (record { state = file_view r; result = p; events = [] })
  FileMeets-kept r res p v a = (v, λ j kj. refl, a, Received-none r.watchers r.watchers refl)

  module _ (r : File O T) (k : Key) (v : IsFileStore r) (kk : IsFileKey k) where
    -- The reply to a write.
    abbrev pub put_reply : T → List (Event T) → Reply T
    put_reply x evs = record { state = put (file_view r) k x; result = ok tt; events = evs }

    module _ (x : T) (c : IsCoded as_type as_object r x) where
      view-with_file :
          (ws : Watchers T) (j : Key)
          → IsFileKey j
          → file_view (on r (with_bytes r.disk (filename r k) c.bytes) ws) j
            ≡ put (file_view r) k x j
      view-with_file ws j kj = elim (key_eq.dec k j) [
        | yes same ↦
            subst
              (λ i.
                file_view (on r (with_bytes r.disk (filename r k) c.bytes) ws) i
                ≡ put (file_view r) k x i)
              same
              (ap seen (get-with_file as_type as_object r ws k x c v.rooted kk)
                ∙ rw (≟_refl k) refl)
        | no other ↦
            ap seen (get-with_file_other as_type as_object r ws k j c.bytes v.rooted kk kj other)
            ∙ rw (≟_ne k j other) refl
      ]

      -- The object's file written, and the watchers told.
      pub FileMeets-put :
          (ws : Watchers T) (evs : List (Event T))
          → IsConsistent ws
          → Received r.watchers ws evs
          → FileMeets r
              (on r (with_bytes r.disk (filename r k) c.bytes) ws)
              (ok tt)
              (put_reply x evs)
      FileMeets-put ws evs valid received = (
        on-IsFileStore r (with_bytes r.disk (filename r k) c.bytes) ws v.rooted valid,
        λ j kj. view-with_file ws j kj,
        inl (refl, refl),
        received,
      )

    pub view-without :
        (ws : Watchers T) (j : Key)
        → IsFileKey j
        → file_view (on r (without_file r.disk (filename r k)) ws) j ≡ remove (file_view r) k j
    view-without ws j kj = elim (key_eq.dec k j) [
      | yes same ↦
          subst
            (λ i.
              file_view (on r (without_file r.disk (filename r k)) ws) i ≡ remove (file_view r) k i)
            same (ap seen (get-without as_type as_object r ws k v.rooted kk).1 ∙ rw (≟_refl k) refl)
      | no other ↦
          ap seen (get-without_other as_type as_object r ws k j v.rooted kk kj other)
          ∙ rw (≟_ne k j other) refl
    ]
