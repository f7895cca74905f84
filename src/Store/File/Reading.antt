-- ===== src/Store/File/Reading.antt =====
-- pkg/store/file/util.go, `readFile`: what is read depends on the disk alone.
use apiserver_runtime_exampl.Base.{◌≡◌, refl, ap, ◌∙◌, Option, Text, Result, ok, err, text_eq}
use apiserver_runtime_exampl.Os.Paths.{clean}
use apiserver_runtime_exampl.Os.Files.{Files, FsError, read_file}
use apiserver_runtime_exampl.Watch.Watchers.{Watchers}
use apiserver_runtime_exampl.Store.Key.{Key}
use apiserver_runtime_exampl.Store.File.{File, filename, read_file_of, get, content_of}
use apiserver_runtime_exampl.Store.File.Names.{IsFileKey, IsRooted, filename-clean}

module _ {ℓ κ} {O : Type ℓ} {T : Type κ} where
  -- The disk and the watchers of a store replaced.
  abbrev pub on : File O T → Files → Watchers T → File O T
  on r disk ws = record r { disk = disk; watchers = ws }

module _ {ℓ κ} {O : Type ℓ} {T : Type κ} (as_type : O → Option T) (as_object : T → Option O) where
  content_of-on :
      (r : File O T) (disk : Files) (ws : Watchers T) (m : Result FsError Text)
      → content_of as_type as_object (on r disk ws) m ≡ content_of as_type as_object r m
  unfolding content_of
  content_of-on r disk ws (err e) = refl
  content_of-on r disk ws (ok bytes) = refl

  -- What is read of a plain key.
  pub get-on :
      (r : File O T) (disk : Files) (ws : Watchers T) (key : Key)
      → IsRooted r
      → IsFileKey key
      → get as_type as_object (on r disk ws) key
        ≡ content_of as_type as_object r (read_file disk (filename r key))
  unfolding get read_file_of filename
  get-on r disk ws key v k =
      content_of-on r disk ws (read_file disk (clean (filename r key)))
      ∙ ap (λ p. content_of as_type as_object r (read_file disk p)) (filename-clean r key v k)
