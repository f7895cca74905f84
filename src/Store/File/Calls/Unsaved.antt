-- ===== src/Store/File/Calls/Unsaved.antt =====
-- pkg/store/file/file.go, `Create`: the error of the write is not looked at.
use apiserver_runtime_exampl.Base.{
  ◌≡◌, refl, sym, ap, ◌∙◌, Option, none, some, Text, Result, ok, err, text_eq, done, ◌>>=◌,
}
use apiserver_runtime_exampl.Os.Files.{Files, FsError, write_file}
use apiserver_runtime_exampl.Watch.{added}
use apiserver_runtime_exampl.Store.Key.{Key}
use apiserver_runtime_exampl.Os.Files.Reading.{write_file-failed}
use apiserver_runtime_exampl.Store.Memory.{event}
use apiserver_runtime_exampl.Store.File.{
  File, FileError, filename, write_file_of, get, written, write_bytes, write_object, convert,
}
use apiserver_runtime_exampl.Store.File.Calls.{notify, write, create}

module _ {ℓ κ} {O : Type ℓ} {T : Type κ} (as_type : O → Option T) (as_object : T → Option O) where
  written-failed :
      (r r1 : File O T) (p bytes : Text) (w : Files × Option FsError) {e : FileError}
      → write_file r.disk p bytes ≡ w
      → written as_type as_object r w ≡ (r1, some e)
      → r1 ≡ r
  unfolding written
  written-failed r r1 p bytes (disk, none) same h = let wrong = ap (λ x. x.1) h in cc
  written-failed r r1 p bytes (disk, some e) same h =
      ap (λ x. x.0) (sym h)
      ∙ ap (λ d. record r { disk = d }) (write_file-failed r.disk disk p bytes same)

  write_bytes-failed :
      (r r1 : File O T) (key : Key) (m : Result Text Text) {e : FileError}
      → write_bytes as_type as_object r key m ≡ (r1, some e)
      → r1 ≡ r
  unfolding write_bytes
  write_bytes-failed r r1 key (err _) h = ap (λ x. x.0) (sym h)
  write_bytes-failed r r1 key (ok bytes) h =
      written-failed r r1 (filename r key) bytes (write_file r.disk (filename r key) bytes) refl h

  write_object-failed :
      (r r1 : File O T) (key : Key) (m : Result FileError O) {e : FileError}
      → write_object as_type as_object r key m ≡ (r1, some e)
      → r1 ≡ r
  unfolding write_object
  write_object-failed r r1 key (err _) h = ap (λ x. x.0) (sym h)
  write_object-failed r r1 key (ok obj) h = write_bytes-failed r r1 key (r.codec.encode obj) h

  -- A write that fails leaves the store as it was, and `Create` says that it went well.
  pub create-unsaved :
      (r r1 : File O T) (key : Key) (x : T) {e e' : FileError}
      → get as_type as_object r key ≡ err e
      → write_file_of as_type as_object r key x ≡ (r1, some e')
      → create as_type as_object r key x
        ≡ (notify as_type as_object r (event added x) >>= λ r'. done (r', ok tt))
  unfolding create write write_file_of
  create-unsaved r r1 key x fresh failed =
      rw
        (
          fresh,
          failed,
          write_object-failed r r1 key (convert as_type as_object (as_object x)) failed,
        )
        refl
