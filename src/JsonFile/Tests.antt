-- ===== src/JsonFile/Tests.antt =====
-- Runs of the REST storage in files, and the theorems about it at these runs.
use apiserver_runtime_exampl.Base.{
  ℕ, suc, contains, ◌≡◌, refl, ap, split, true, false, Option, none, some, List, [], ◌∷◌, ◌++◌,
  Text, codes, arith, done, Result, ok, err, Dict, lookup, insert, erase, length, text_eq,
  ℕ_discrete, Text-discrete,
}
use apiserver_runtime_exampl.Os.Paths.{slashed, clean, join, dir}
use apiserver_runtime_exampl.Os.Paths.Components.{long-IsPlain}
use apiserver_runtime_exampl.Os.Files.{Files, read_file, write_file, remove, stat, mkdir_all, walk}
use apiserver_runtime_exampl.Channel.{Heap, make_chan}
use apiserver_runtime_exampl.Watch.{Event}
use apiserver_runtime_exampl.Store.File.{Codec}
use apiserver_runtime_exampl.JsonFile.{
  Meta, FilepathRest, JsonWatch, not_found, namespace_of, object_file_name, object_dir_name, read,
  write, get, exists, ensure_dir, notify_watchers,
}
use apiserver_runtime_exampl.JsonFile.Names.{IsRooted, IsFileName}
use apiserver_runtime_exampl.JsonFile.Handlers.{create, update, delete}
use apiserver_runtime_exampl.JsonFile.Handlers.Removes.{delete-removes}
use apiserver_runtime_exampl.JsonFile.Watching.{delete_collection, list}
use apiserver_runtime_exampl.JsonFile.Watching.Collection.{AreWalked, delete_collection-list}

-- Objects are numbers; all have one name, and stamping one adds one.
abbrev decode : Text → ℕ → Result Text ℕ
decode [] _ = err (codes "empty")
decode (n ∷ _) _ = ok n

abbrev codec : Codec ℕ
codec = record { decode = decode; encode = λ n. ok (n ∷ []) }

abbrev meta : Meta ℕ (List ℕ)
meta = record {
  accessor_error = λ _. none;
  set_uid = λ n _. suc n;
  get_name = λ _. codes "a";
  items_ptr = λ l. ok l;
  with_items = λ _ items. items;
  items = λ l. l;
}

abbrev dirs : List Text
dirs = codes "data" ∷ codes "data/inv" ∷ codes "data/inv/targets" ∷ []

abbrev dirs_made : List Text
dirs_made = dirs ++ (dirs ++ codes "data/inv/targets/default" ∷ [])

abbrev empty_disk : Files
empty_disk = record { contents = []; dirs = dirs_made }

abbrev disk_with : ℕ → Files
disk_with n = record empty_disk {
  contents = (codes "data/inv/targets/default/a.json", n ∷ []) ∷ [];
}

abbrev rest : Dict ℕ JsonWatch → Heap (Event ℕ) → Files → FilepathRest ℕ (List ℕ)
rest ws chans disk = record {
  codec = codec;
  obj_root_path = codes "data/inv/targets";
  is_namespaced = true;
  watchers = ws;
  new_func = 0;
  new_list_func = [];
  meta = meta;
  disk = disk;
  chans = chans;
}

abbrev space : Option Text
space = some (codes "default")

rooted : (ws : Dict ℕ JsonWatch) (h : Heap (Event ℕ)) (d : Files) → IsRooted (rest ws h d)
unfolding slashed
rooted ws h d = record {
  rooted = false;
  first = codes "data";
  rest = codes "inv" ∷ codes "targets" ∷ [];
  plain = (
    long-IsPlain (codes "data") refl (omega arith),
    (
      long-IsPlain (codes "inv") refl (omega arith),
      (long-IsPlain (codes "targets") refl (omega arith), tt),
    ),
  );
  is_path = refl;
}

named :
    (ws : Dict ℕ JsonWatch) (h : Heap (Event ℕ)) (d : Files)
    → IsFileName (rest ws h d) space (codes "a")
unfolding namespace_of
named ws h d = record {
  namespace = λ _. long-IsPlain (codes "default") refl (omega arith);
  name = refl;
}

-- The namespace's directory is made by the first `Create`.
created :
    create (rest [] [] (record { contents = []; dirs = dirs })) space 4 none (codes "u")
    ≡ done (rest [] [] (disk_with 5), ok 5)
unfolding create ensure_dir exists stat lookup text_eq Text-discrete slashed join ℕ_discrete
    mkdir_all object_file_name write write_file dir notify_watchers insert
created = refl

updated :
    update (rest [] [] (disk_with 5)) space (codes "a") (λ _. ok 7) none none false
    ≡ done (rest [] [] (disk_with 7), ok (7, false))
unfolding update get read read_file lookup text_eq Text-discrete clean object_file_name join
    ℕ_discrete ensure_dir stat write write_file dir notify_watchers insert
updated = refl

deleted :
    delete (rest [] [] (disk_with 7)) space (codes "a") none
    ≡ done (rest [] [] empty_disk, ok (7, true))
unfolding delete exists stat lookup text_eq Text-discrete object_file_name join ℕ_discrete get read
    read_file remove notify_watchers erase
deleted = refl

no_dir : contains dirs_made (object_file_name (rest [] [] (disk_with 7)) space (codes "a")) ≡ false
unfolding object_file_name join text_eq Text-discrete ℕ_discrete
no_dir = refl

delete-removes_example :
    (get (rest [] [] (disk_with 7)) space (codes "a") ≡ ok 7)
    × (get (rest [] [] empty_disk) space (codes "a") ≡ err (not_found (codes "a")))
delete-removes_example =
    delete-removes (rest [] [] (disk_with 7)) (rest [] [] empty_disk) space (codes "a") none
      (7, true) (rooted [] [] (disk_with 7)) (named [] [] (disk_with 7)) no_dir deleted

-- Two watches, of which the first is stopped.
abbrev first_watch : JsonWatch
first_watch = record { id = 0; ch = 0 }

abbrev second_watch : JsonWatch
second_watch = record { id = 1; ch = 1 }

abbrev third_watch : JsonWatch
third_watch = record { id = 1; ch = 2 }

abbrev two_watches : Dict ℕ JsonWatch
two_watches = (0, first_watch) ∷ (1, second_watch) ∷ []

abbrev two_chans : Heap (Event ℕ)
two_chans = make_chan 10 ∷ make_chan 10 ∷ []

abbrev watches_after : Dict ℕ JsonWatch
watches_after = (1, third_watch) ∷ []

-- Two files in a directory, and one that is not of an object.
abbrev full_disk : Files
full_disk = record {
  contents = (codes "d/b.json", 2 ∷ []) ∷ (codes "d/a.json", 1 ∷ []) ∷ (codes "d/n", []) ∷ [];
  dirs = codes "d" ∷ [];
}

abbrev flat_rest : FilepathRest ℕ (List ℕ)
flat_rest = record (rest [] [] full_disk) { obj_root_path = codes "d"; is_namespaced = false }

abbrev full_walk : List Text
full_walk = codes "d/a.json" ∷ codes "d/b.json" ∷ codes "d/n" ∷ []

full_walked : walk full_disk (object_dir_name flat_rest none) ≡ ok full_walk
unfolding walk object_dir_name lookup text_eq Text-discrete ℕ_discrete
full_walked = refl

full_walk-AreWalked : AreWalked full_walk
unfolding clean text_eq Text-discrete ℕ_discrete
full_walk-AreWalked = (
  refl,
  (
    λ e. let pieces = ap (λ t. length (split t b'a')) e in absurd (omega arith),
    (λ e. let n = ap length e in absurd (omega arith), tt),
  ),
  (refl, (λ e. let n = ap length e in absurd (omega arith), tt), (refl, tt, tt)),
)

delete_collection-list_example : (list flat_rest none).1 ≡ (delete_collection flat_rest none).1
delete_collection-list_example =
    delete_collection-list flat_rest none full_walk full_walked full_walk-AreWalked
