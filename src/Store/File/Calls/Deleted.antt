-- ===== src/Store/File/Calls/Deleted.antt =====
-- pkg/store/file/file.go, `Delete`: a deleted object is not found again.
use apiserver_runtime_exampl.Base.{
  ◌≡◌, ◌≢◌, refl, sym, ap, ◌∙◌, subst, inl, inr, Option, Text, Result, ok, err, Result-cases,
  text_eq, done, >>=-eq-done, done-injective,
}
use apiserver_runtime_exampl.Os.Files.{FsError, read_file}
use apiserver_runtime_exampl.Watch.{deleted}
use apiserver_runtime_exampl.Watch.Watchers.{Watchers}
use apiserver_runtime_exampl.Store.Key.{Key}
use apiserver_runtime_exampl.Store.Memory.{event}
use apiserver_runtime_exampl.Store.File.{
  File, FileError, io, filename, get, content_of, written, delete_file,
}
use apiserver_runtime_exampl.Store.File.Calls.{notify, delete, erase_file}
use apiserver_runtime_exampl.Os.Files.Reading.{
  without_file, read_file-without, read_file-without_other, remove-read_file,
}
use apiserver_runtime_exampl.Store.File.Reading.{on, get-on}
use apiserver_runtime_exampl.Store.File.Calls.Telling.{notify-keeps}
use apiserver_runtime_exampl.Store.File.Names.{IsFileKey, IsRooted, filename-injective}

module _ {ℓ κ} {O : Type ℓ} {T : Type κ} (as_type : O → Option T) (as_object : T → Option O) where
  content_of-ok :
      (r : File O T) (m : Result FsError Text) {x : T}
      → content_of as_type as_object r m ≡ ok x
      → (bytes : Text) × (m ≡ ok bytes)
  unfolding content_of
  content_of-ok r (err e) h = cc
  content_of-ok r (ok bytes) h = (bytes, refl)

  -- The object's file is removed.
  pub erase_file-erases :
      (r : File O T) (ws : Watchers T) (key : Key) {x : T}
      → IsRooted r
      → IsFileKey key
      → get as_type as_object r key ≡ ok x
      → (erase_file as_type as_object (on r r.disk ws) key).0
        ≡ on r (without_file r.disk (filename r key)) ws
  unfolding erase_file delete_file written filename
  erase_file-erases r ws key v k found =
      let (bytes, there) =
        content_of-ok r (read_file r.disk (filename r key))
          (sym (get-on as_type as_object r r.disk r.watchers key v k) ∙ found) in
      rw (remove-read_file r.disk (filename r key) there) refl

  pub get-without :
      (r : File O T) (ws : Watchers T) (key : Key)
      → IsRooted r
      → IsFileKey key
      → (e : FileError) × (get as_type as_object
            (on r (without_file r.disk (filename r key)) ws)
            key
          ≡ err e)
  unfolding content_of
  get-without r ws key v k =
      let (e, gone) = read_file-without r.disk (filename r key) in
      (
        io e,
        rw (get-on as_type as_object r (without_file r.disk (filename r key)) ws key v k, gone)
            refl,
      )

  pub get-without_other :
      (r : File O T) (ws : Watchers T) (key j : Key)
      → IsRooted r
      → IsFileKey key
      → IsFileKey j
      → key ≢ j
      → get as_type as_object (on r (without_file r.disk (filename r key)) ws) j
        ≡ get as_type as_object r j
  get-without_other r ws key j v kk kj other =
      get-on as_type as_object r (without_file r.disk (filename r key)) ws j v kj
      ∙ ap (content_of as_type as_object r) (
          read_file-without_other r.disk (filename r key) (filename r j)
            λ same. other (filename-injective r key j v kk kj same))
      ∙ sym (get-on as_type as_object r r.disk r.watchers j v kj)

  -- `Delete` that comes back: the object is not found afterwards, whether it was there or not, and
  -- no other object is lost or changed.
  pub get-delete_file :
      (r r' : File O T) (key : Key)
      → IsRooted r
      → IsFileKey key
      → delete as_type as_object r key ≡ done (r', ok tt)
      → ((e : FileError) × (get as_type as_object r' key ≡ err e))
        × ((j : Key)
            → IsFileKey j
            → key ≢ j
            → get as_type as_object r' j ≡ get as_type as_object r j)
  unfolding delete
  get-delete_file r r' key v k ran = elim (Result-cases (get as_type as_object r key)) [
    | inr (e, gone) ↦
        let end : r ≡ r' = ap (λ y. y.0) (done-injective (rw gone at ran)) in
        (
          (e, subst (λ y. get as_type as_object y key ≡ err e) end gone),
          λ j _ _. ap (λ y. get as_type as_object y j) (sym end),
        )
    | inl (x, found) ↦
        let (r1, told, same) =
          >>=-eq-done (notify as_type as_object r (event deleted x)) _ (rw found at ran) in
        let (ws, step) = notify-keeps as_type as_object r r1 (event deleted x) told in
        let end : on r (without_file r.disk (filename r key)) ws ≡ r' =
          sym (erase_file-erases r ws key v k found)
          ∙ ap (λ y. (erase_file as_type as_object y key).0) (sym step)
          ∙ ap (λ y. y.0) (done-injective same) in
        (
          subst (λ y. (e : FileError) × (get as_type as_object y key ≡ err e)) end
              (get-without r ws key v k),
          λ j kj other.
              subst (λ y. get as_type as_object y j ≡ get as_type as_object r j) end
                (get-without_other r ws key j v k kj other),
        )
  ]
