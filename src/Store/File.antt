-- ===== src/Store/File.antt =====
-- pkg/store/file/file.go and util.go: the store in files, one JSON file for each object. A call is
-- one step.
pub mod Calls
mod Tests
pub mod Names
pub mod Reading
pub mod Visits
use apiserver_runtime_exampl.Base.{
  ℕ, suc, ◌-◌, Bool, true, false, not, Option, none, some, List, [], ◌∷◌, ◌++◌, map, Text, codes,
  if◌then◌else◌, is_nil, split, has_suffix, trim_suffix, get_elem?, length, leb, ◌==◌, Outcome,
  done, ◌>>=◌, Result, ok, err, Dict, insert,
}
use apiserver_runtime_exampl.Os.Paths.{clean, join, base_name}
use apiserver_runtime_exampl.Os.Files.{
  Files, FsError, read_file, write_file, remove, stat, mkdir_all, walk,
}
use apiserver_runtime_exampl.Channel.Burst.{send_all}
use apiserver_runtime_exampl.Watch.{Event, added, modified, deleted}
use apiserver_runtime_exampl.Watch.IdAllocator.{IdError}
use apiserver_runtime_exampl.Watch.Watchers
use apiserver_runtime_exampl.Watch.Watchers.{
  WatchCtx, Watchers, new_watchers, notify_watchers, get_watch_context,
}
use apiserver_runtime_exampl.Store.Key.{Key, key_eq, get_nsn_key}
use apiserver_runtime_exampl.Store.Memory.{event}

-- `runtime.Codec`, of the Kubernetes libraries: `decode` is given the object to decode into.
pub record Codec {ℓ} (O : Type ℓ) : Type ℓ where
  pub decode : Text → O → Result Text O
  pub encode : O → Result Text Text

pub record Config {ℓ} (O : Type ℓ) : Type ℓ where
  pub group : Text
  pub resource : Text
  pub root_path : Text
  pub codec : Codec O
  pub new_func : O

pub data FileError : Type 0 where
  cannot_write_dir : FsError → FileError
  io : FsError → FileError
  coding : Text → FileError
  unexpected_object unsupported_type : FileError
  path_too_small : Text → FileError
  duplicate_entry : Key → FileError
  out_of_resources : FileError
  cannot_add : IdError → FileError

-- `disk` is the file system, which the source reaches through `os`.
pub record File {ℓ κ} (O : Type ℓ) (T : Type κ) : Type (ℓ ⊔ κ) where
  pub obj_root_path : Text
  pub codec : Codec O
  pub new_func : O
  pub watchers : Watchers T
  pub disk : Files

exists : Files → Text → Bool
exists disk filepath = stat disk filepath

ensure_dir : Files → Text → Files × Option FsError
unfolding exists
ensure_dir disk dirname = if not (exists disk dirname) then mkdir_all disk dirname else (disk, none)

module _ {ℓ κ} {O : Type ℓ} {T : Type κ} where
  store_in : Config O → Text → Files × Option FsError → Files × Result FileError (File O T)
  store_in cfg root (disk, some e) = (disk, err (cannot_write_dir e))
  store_in cfg root (disk, none) = (
    disk,
    ok (record {
      obj_root_path = root;
      codec = cfg.codec;
      new_func = cfg.new_func;
      watchers = new_watchers 32;
      disk = disk;
    }),
  )

  -- `NewStore`
  unfoldable pub new_store : Files → Config O → Files × Result FileError (File O T)
  unfolding store_in ensure_dir
  new_store disk cfg =
      let root = join (cfg.root_path ∷ cfg.group ∷ cfg.resource ∷ []) in
      store_in cfg root (ensure_dir disk root)

  unfoldable pub filename : File O T → Key → Text
  filename r key =
      if not (is_nil key.namespace)
      then join (r.obj_root_path ∷ key.namespace ∷ (key.name ++ codes ".json") ∷ [])
      else join (r.obj_root_path ∷ (key.name ++ codes ".json") ∷ [])

  -- The type assertions from an object to the store's type, and back.
  module _ (as_type : O → Option T) (as_object : T → Option O) where
    typed : Option T → Result FileError T
    typed none = err unexpected_object
    typed (some x) = ok x

    decoded : Result Text O → Result FileError T
    unfolding typed
    decoded (err e) = err (coding e)
    decoded (ok obj) = typed (as_type obj)

    pub content_of : File O T → Result FsError Text → Result FileError T
    unfolding decoded
    content_of r (err e) = err (io e)
    content_of r (ok content) = decoded (r.codec.decode content r.new_func)

    unfoldable pub read_file_of : File O T → Key → Result FileError T
    unfolding content_of
    read_file_of r key = content_of r (read_file r.disk (clean (filename r key)))

    convert : Option O → Result FileError O
    convert none = err unsupported_type
    convert (some obj) = ok obj

    written : File O T → Files × Option FsError → File O T × Option FileError
    written r (disk, none) = (record r { disk = disk }, none)
    written r (disk, some e) = (record r { disk = disk }, some (io e))

    write_bytes : File O T → Key → Result Text Text → File O T × Option FileError
    unfolding written
    write_bytes r key (err e) = (r, some (coding e))
    write_bytes r key (ok bytes) = written r (write_file r.disk (filename r key) bytes)

    write_object : File O T → Key → Result FileError O → File O T × Option FileError
    unfolding write_bytes
    write_object r key (err e) = (r, some e)
    write_object r key (ok obj) = write_bytes r key (r.codec.encode obj)

    unfoldable pub write_file_of : File O T → Key → T → File O T × Option FileError
    unfolding write_object convert
    write_file_of r key x = write_object r key (convert (as_object x))

    delete_file : File O T → Key → File O T × Option FileError
    unfolding written
    delete_file r key = written r (remove r.disk (filename r key))

    -- `Get`
    unfoldable pub get : File O T → Key → Result FileError T
    get r key = read_file_of r key

    -- The last element but `n`; the source looks only where there is one.
    from_end : List Text → ℕ → Text
    from_end xs n = elim (get_elem? xs (length xs - n)) [ none ↦ [] | some x ↦ x ]

    -- What one visit leaves of the visitor's state, and the error that ends the walk.
    visited {μ} :
        {S : Type μ}
        → Option (Key → T → S → S)
        → Key
        → Result FileError T
        → S
        → S × Option FileError
    visited visitor key (err e) s = (s, some e)
    visited none key (ok x) s = (s, none)
    visited (some f) key (ok x) s = (f key x s, none)

    -- The key of a file, from the components of its path and of the root.
    key_of : List Text → List Text → Key
    unfolding from_end
    key_of fp_split obj_root_split =
        let name = trim_suffix (from_end fp_split 1) (codes ".json") in
        if length fp_split == suc (length obj_root_split)
        then get_nsn_key (record { namespace = []; name = name })
        else get_nsn_key (record { namespace = from_end fp_split 2; name = name })

    -- The function that `visitDir` gives to the walk, on a file.
    visit_file {μ} :
        {S : Type μ} → File O T → Option (Key → T → S → S) → Text → S → S × Option FileError
    unfolding key_of visited
    visit_file r visitor path s =
        if not (has_suffix (base_name path) (codes ".json"))
        then (s, none)
        else (let fp_split = split path b'/' in
            let obj_root_split = split path b'/' in
            if leb (length fp_split) (length obj_root_split)
            then (s, some (path_too_small path))
            else (let key = key_of fp_split obj_root_split in
                visited visitor key (read_file_of r key) s))

    -- The walk stops at the first error.
    after_file {μ} :
        {S : Type μ} → (S → S × Option FileError) → S × Option FileError → S × Option FileError
    after_file rest (s, some e) = (s, some e)
    after_file rest (s, none) = rest s

    visit_files {μ} :
        {S : Type μ} → File O T → Option (Key → T → S → S) → List Text → S → S × Option FileError
    unfolding visit_file after_file
    visit_files r visitor [] s = (s, none)
    visit_files r visitor (path ∷ paths) s =
        after_file (visit_files r visitor paths) (visit_file r visitor path s)

    visit_walk {μ} :
        {S : Type μ}
        → File O T
        → Option (Key → T → S → S)
        → Result FsError (List Text)
        → S
        → S × Option FileError
    unfolding visit_files
    visit_walk r visitor (err e) s = (s, some (io e))
    visit_walk r visitor (ok paths) s = visit_files r visitor paths s

    unfoldable pub visit_dir {μ} :
        {S : Type μ} → File O T → Option (Key → T → S → S) → S → S × Option FileError
    unfolding visit_walk
    visit_dir r visitor s = visit_walk r visitor (walk r.disk r.obj_root_path) s

    -- `List` only logs the error.
    unfoldable pub list {μ} : {S : Type μ} → File O T → Option (Key → T → S → S) → S → S
    list r visitor s = (visit_dir r visitor s).0
