-- ===== src/Store/File/Tests.antt =====
-- Runs of the store in files, and the theorems about it at these runs.
use apiserver_runtime_exampl.Base.{
  ℕ, suc, ◌≡◌, refl, some, [], ◌∷◌, Text, codes, done, Result, ok, err, lookup, insert, nat_eq,
  text_eq, ℕ_discrete, Text-discrete,
}
use apiserver_runtime_exampl.Os.Paths.{join, dir}
use apiserver_runtime_exampl.Os.Files.{Files, read_file, write_file}
use apiserver_runtime_exampl.Watch.Watchers.{new_watchers, notify_watchers, notify_all}
use apiserver_runtime_exampl.Store.Key.{Key}
use apiserver_runtime_exampl.Store.Memory
use apiserver_runtime_exampl.Store.Memory.{Mem}
use apiserver_runtime_exampl.Store.File.{
  Codec, File, filename, read_file_of, write_file_of, get, list,
}
use apiserver_runtime_exampl.Store.Contract
use apiserver_runtime_exampl.Store.File.Calls.{create}
use apiserver_runtime_exampl.Store.File.Visits.{list-stays}

-- Objects are numbers, and a file holds the number as its only character.
abbrev decode : Text → ℕ → Result Text ℕ
decode [] _ = err (codes "empty")
decode (n ∷ _) _ = ok n

abbrev codec : Codec ℕ
codec = record { decode = decode; encode = λ n. ok (n ∷ []) }

abbrev disk : Files
disk = record {
  contents = [];
  dirs =
      codes "data"
      ∷ codes "data/inv"
      ∷ codes "data/inv/targets"
      ∷ codes "data/inv/targets/default"
      ∷ [];
}

abbrev store_on : Files → File ℕ ℕ
store_on d = record {
  obj_root_path = codes "data/inv/targets";
  codec = codec;
  new_func = 0;
  watchers = new_watchers 32;
  disk = d;
}

abbrev key_a : Key
key_a = record { namespace = codes "default"; name = codes "a" }

abbrev file_a : Text
file_a = codes "data/inv/targets/default/a.json"

abbrev disk_a : Files
disk_a = record disk { contents = (file_a, 5 ∷ []) ∷ [] }

created : create some some (store_on disk) key_a 5 ≡ done (store_on disk_a, ok tt)
unfolding create get read_file read_file_of write_file write_file_of filename join dir new_watchers
    notify_watchers notify_all insert lookup text_eq Text-discrete ℕ_discrete
created = refl

-- The same create in memory.
abbrev in_memory : Mem ℕ
in_memory = record { db = []; watchers = new_watchers 32 }

abbrev in_memory_a : Mem ℕ
in_memory_a = record in_memory { db = (key_a, 5) ∷ [] }

-- A list of a store with an object that would count it.
list-stays_example : list some some (store_on disk_a) (some (λ _ _ n. suc n)) 0 ≡ 0
list-stays_example = list-stays some some (store_on disk_a) (some (λ _ _ n. suc n)) 0
