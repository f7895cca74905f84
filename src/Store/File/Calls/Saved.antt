-- ===== src/Store/File/Calls/Saved.antt =====
-- pkg/store/file: what is stored is found again.
use apiserver_runtime_exampl.Base.{
  ◌≡◌, ◌≢◌, refl, sym, ap, ◌∙◌, subst, true, false, Option, none, some, Text, ok, err, insert,
  contains, text_eq, done, >>=-eq-done, done-injective,
}
use apiserver_runtime_exampl.Os.Paths.{dir}
use apiserver_runtime_exampl.Os.Files.{write_file}
use apiserver_runtime_exampl.Watch.{added}
use apiserver_runtime_exampl.Watch.Watchers.{Watchers}
use apiserver_runtime_exampl.Store.Key.{Key}
use apiserver_runtime_exampl.Os.Files.Reading.{
  with_bytes, read_file-with_bytes, read_file-with_bytes_other,
}
use apiserver_runtime_exampl.Store.Memory.{event}
use apiserver_runtime_exampl.Store.File.{File, FileError, filename, write_file_of, get, content_of}
use apiserver_runtime_exampl.Store.File.Calls.{notify, write, create}
use apiserver_runtime_exampl.Store.File.Reading.{on, get-on}
use apiserver_runtime_exampl.Store.File.Calls.Telling.{notify-keeps}
use apiserver_runtime_exampl.Store.File.Names.{IsFileKey, IsRooted, filename-injective}

module _ {ℓ κ} {O : Type ℓ} {T : Type κ} (as_type : O → Option T) (as_object : T → Option O) where
  -- The store's codec reads back what it writes of an object.
  pub record IsCoded (r : File O T) (x : T) : Type (ℓ ⊔ κ) where
    pub object : O
    pub bytes : Text
    pub back : O
    pub converts : as_object x ≡ some object
    pub encodes : r.codec.encode object ≡ ok bytes
    pub decodes : r.codec.decode bytes r.new_func ≡ ok back
    pub is_type : as_type back ≡ some x

  -- The object's file can be written.
  pub record IsRoom (r : File O T) (key : Key) : Type (ℓ ⊔ κ) where
    pub parent : contains r.disk.dirs (dir (filename r key)) ≡ true
    pub no_dir : contains r.disk.dirs (filename r key) ≡ false

  -- The store with an object's file written.
  abbrev pub with_file : File O T → Key → Text → File O T
  with_file r key bytes = record r {
    disk = record r.disk { contents = insert (filename r key) bytes r.disk.contents };
  }

  pub write-stores :
      (r : File O T) (key : Key) (x : T) (c : IsCoded r x)
      → IsRoom r key
      → write as_type as_object r key x ≡ (with_file r key c.bytes, none)
  unfolding write write_file_of write_file
  write-stores r key x c room = rw (c.converts, c.encodes, room.no_dir, room.parent) refl

  pub get-with_file :
      (r : File O T) (ws : Watchers T) (key : Key) (x : T) (c : IsCoded r x)
      → IsRooted r
      → IsFileKey key
      → get as_type as_object (on r (with_bytes r.disk (filename r key) c.bytes) ws) key ≡ ok x
  unfolding content_of
  get-with_file r ws key x c v k =
      rw
        (
          get-on as_type as_object r (with_bytes r.disk (filename r key) c.bytes) ws key v k,
          read_file-with_bytes r.disk (filename r key) c.bytes,
          c.decodes,
          c.is_type,
        )
        refl

  pub get-with_file_other :
      (r : File O T) (ws : Watchers T) (key j : Key) (bytes : Text)
      → IsRooted r
      → IsFileKey key
      → IsFileKey j
      → key ≢ j
      → get as_type as_object (on r (with_bytes r.disk (filename r key) bytes) ws) j
        ≡ get as_type as_object r j
  get-with_file_other r ws key j bytes v kk kj other =
      get-on as_type as_object r (with_bytes r.disk (filename r key) bytes) ws j v kj
      ∙ ap (content_of as_type as_object r) (
          read_file-with_bytes_other r.disk (filename r key) (filename r j) bytes
            λ same. other (filename-injective r key j v kk kj same))
      ∙ sym (get-on as_type as_object r r.disk r.watchers j v kj)

  -- `Create` of a missing object, when the file can be written: the object is found afterwards, and
  -- no other object is lost or changed.
  pub get-create_file :
      (r r' : File O T) (key : Key) (x : T) {e : FileError}
      → IsRooted r
      → IsFileKey key
      → IsCoded r x
      → IsRoom r key
      → get as_type as_object r key ≡ err e
      → create as_type as_object r key x ≡ done (r', ok tt)
      → (get as_type as_object r' key ≡ ok x)
        × ((j : Key)
            → IsFileKey j
            → key ≢ j
            → get as_type as_object r' j ≡ get as_type as_object r j)
  unfolding create
  get-create_file r r' key x v k c room fresh ran =
      let (r1, told, same) =
        >>=-eq-done (notify as_type as_object (write as_type as_object r key x).0 (event added x)) _
          (rw fresh at ran) in
      let (ws, step) = notify-keeps as_type as_object (with_file r key c.bytes) r1 (event added x) (
        ap (λ y. notify as_type as_object y.0 (event added x)) (sym (write-stores r key x c room))
        ∙ told) in
      let end : on r (with_bytes r.disk (filename r key) c.bytes) ws ≡ r' =
        sym step ∙ ap (λ y. y.0) (done-injective same) in
      (
        subst (λ y. get as_type as_object y key ≡ ok x) end (get-with_file r ws key x c v k),
        λ j kj other.
            subst (λ y. get as_type as_object y j ≡ get as_type as_object r j) end
              (get-with_file_other r ws key j c.bytes v k kj other),
      )
