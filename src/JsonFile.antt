-- ===== src/JsonFile.antt =====
-- pkg/filepath/jsonfile_rest.go: the REST storage in JSON files. A handler's call is one step.
pub mod Handlers
pub mod Watching
pub mod Names
mod Tests
use apiserver_runtime_exampl.Base.{
  ℕ, Bool, true, false, not, Option, none, some, List, [], ◌∷◌, ◌++◌, Text, codes, if◌then◌else◌,
  has_suffix, has_text, Outcome, done, blocked, panicked, ◌>>=◌, Result, ok, err, Dict,
}
use apiserver_runtime_exampl.Os.Paths.{clean, join, base_name}
use apiserver_runtime_exampl.Os.Files.{
  Files, FsError, no_such_file, is_a_directory, not_a_directory, not_empty, read_file, write_file,
  remove, stat, mkdir_all, walk,
}
use apiserver_runtime_exampl.Channel.{Heap, send}
use apiserver_runtime_exampl.Watch.{Event}
use apiserver_runtime_exampl.Store.File.{Codec}

-- `jsonWatch`: an id, and the reference of a channel.
pub record JsonWatch : Type 0 where
  pub id : ℕ
  pub ch : ℕ

-- What the Kubernetes libraries do with an object `O` and a list object `L`: the accessor's error,
-- its `SetUID` and `GetName`, the items that `GetItemsPtr` reaches, and a list with other items.
pub record Meta {ℓ κ} (O : Type ℓ) (L : Type κ) : Type (ℓ ⊔ κ) where
  pub accessor_error : O → Option Text
  pub set_uid : O → Text → O
  pub get_name : O → Text
  pub items_ptr : L → Result Text (List O)
  pub with_items : L → List O → L
  pub items : L → List O

-- `filepathREST`, with the file system and the channels. `mu_watchers` is free between two steps.
pub record FilepathRest {ℓ κ} (O : Type ℓ) (L : Type κ) : Type (ℓ ⊔ κ) where
  pub codec : Codec O
  pub obj_root_path : Text
  pub is_namespaced : Bool
  pub watchers : Dict ℕ JsonWatch
  pub new_func : O
  pub new_list_func : L
  pub meta : Meta O L
  pub disk : Files
  pub chans : Heap (Event O)

-- The errors of `read`; the first has the path in its message.
pub data ReadError : Type 0 where
  unreadable : Text → FsError → ReadError
  undecodable : Text → ReadError

pub data RestError : Type 0 where
  bad_request not_found invalid : Text → RestError
  namespace_not_exists file_not_exists : RestError
  cannot_make_dir cannot_write cannot_remove : FsError → RestError
  cannot_encode no_accessor no_update not_a_list failed_walking : Text → RestError

-- `err.Error()` of an error of `os.ReadFile`.
fs_message : Text → FsError → Text
fs_message path no_such_file = codes "open " ++ path ++ codes ": no such file or directory"
fs_message path is_a_directory = codes "read " ++ path ++ codes ": is a directory"
fs_message path not_a_directory = codes "open " ++ path ++ codes ": not a directory"
fs_message path not_empty = codes "open " ++ path ++ codes ": directory not empty"

message : ReadError → Text
unfolding fs_message
message (unreadable path e) = fs_message path e
message (undecodable text) = text

pub exists : Files → Text → Bool
exists disk filepath = stat disk filepath

pub ensure_dir : Files → Text → Files × Option FsError
unfolding exists
ensure_dir disk dirname = if not (exists disk dirname) then mkdir_all disk dirname else (disk, none)

-- `NamespaceFrom`: the namespace of a context without one is empty.
pub namespace_of : Option Text → Text
namespace_of none = []
namespace_of (some ns) = ns

wrote : Files × Option FsError → Files × Option RestError
wrote (disk, none) = (disk, none)
wrote (disk, some e) = (disk, some (cannot_write e))

module _ {ℓ} {O : Type ℓ} where
  unfoldable pub notify_all : Dict ℕ JsonWatch → Event O → Heap (Event O) → Outcome (Heap (Event O))
  notify_all [] ev h = done h
  notify_all ((id, w) ∷ rest) ev h = do h' ← send h w.ch ev; notify_all rest ev h'

  decoded : Result Text O → Result ReadError O
  decoded (err e) = err (undecodable e)
  decoded (ok obj) = ok obj

  got : Text → Result ReadError O → Result RestError O
  unfolding message
  got name (ok obj) = ok obj
  got name (err e) =
      if not (has_text (message e) (codes "no such file or directory"))
      then err (bad_request (message e))
      else err (not_found name)

module _ {ℓ κ} {O : Type ℓ} {L : Type κ} where
  rest_in :
      Codec O → Text → Bool → O → L → Meta O L → Files × Option FsError → Outcome (FilepathRest O L)
  rest_in codec root namespaced new new_list meta (disk, some e) = panicked
  rest_in codec root namespaced new new_list meta (disk, none) = done (record {
    codec = codec;
    obj_root_path = root;
    is_namespaced = namespaced;
    watchers = [];
    new_func = new;
    new_list_func = new_list;
    meta = meta;
    disk = disk;
    chans = [];
  })

  -- `NewFilepathREST`
  unfoldable pub new_filepath_rest :
      Files → Text → Text → Codec O → Text → Bool → O → L → Meta O L → Outcome (FilepathRest O L)
  unfolding rest_in ensure_dir
  new_filepath_rest disk group resource codec rootpath namespaced new new_list meta =
      let obj_root = join (rootpath ∷ group ∷ resource ∷ []) in
      rest_in codec obj_root namespaced new new_list meta (ensure_dir disk obj_root)

  pub notify_watchers : FilepathRest O L → Event O → Outcome (FilepathRest O L)
  unfolding notify_all
  notify_watchers f ev = do
    chans ← notify_all f.watchers ev f.chans
    done (record f { chans = chans })

  unfoldable pub object_file_name : FilepathRest O L → Option Text → Text → Text
  unfolding namespace_of
  object_file_name f ctx name =
      if f.is_namespaced
      then join (f.obj_root_path ∷ namespace_of ctx ∷ (name ++ codes ".json") ∷ [])
      else join (f.obj_root_path ∷ (name ++ codes ".json") ∷ [])

  unfoldable pub object_dir_name : FilepathRest O L → Option Text → Text
  unfolding namespace_of
  object_dir_name f ctx =
      if f.is_namespaced then join (f.obj_root_path ∷ namespace_of ctx ∷ []) else f.obj_root_path

  pub encoded : FilepathRest O L → Text → Result Text Text → Files × Option RestError
  unfolding wrote
  encoded f filepath (err e) = (f.disk, some (cannot_encode e))
  encoded f filepath (ok bytes) = wrote (write_file f.disk filepath bytes)

  unfoldable pub write : FilepathRest O L → Text → O → FilepathRest O L × Option RestError
  unfolding encoded
  write f filepath obj =
      let (disk, e) = encoded f filepath (f.codec.encode obj) in (record f { disk = disk }, e)

  content_of : FilepathRest O L → Text → Result FsError Text → Result ReadError O
  unfolding decoded
  content_of f path (err e) = err (unreadable path e)
  content_of f path (ok content) = decoded (f.codec.decode content f.new_func)

  -- `read`, on a disk.
  unfoldable pub read : FilepathRest O L → Files → Text → Result ReadError O
  unfolding content_of
  read f disk path = content_of f (clean path) (read_file disk (clean path))

  -- `Get`
  unfoldable pub get : FilepathRest O L → Option Text → Text → Result RestError O
  unfolding got
  get f ctx name = got name (read f f.disk (object_file_name f ctx name))
