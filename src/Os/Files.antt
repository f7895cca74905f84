-- ===== src/Os/Files.antt =====
-- A tree of files, and the calls of `os` and `filepath.Walk` on it.
pub mod Reading
use apiserver_runtime_exampl.Base.{
  Bool, true, false, ◌&&◌, ◌||◌, Option, none, some, List, [], ◌∷◌, ◌++◌, Text, codes, is_nil,
  split, if◌then◌else◌, contains, text_eq, ◌≟◌, text_lt, Dict, lookup, insert, erase, Result, ok,
  err,
}
use apiserver_runtime_exampl.Os.Paths.{slashed, dir, reverse_onto}

-- The contents of the files by their clean paths, and the directories.
pub record Files : Type 0 where
  pub contents : Dict Text Text
  pub dirs : List Text

pub data FsError : Type 0 where
  no_such_file is_a_directory not_a_directory not_empty : FsError

missing : Files → Text → FsError
missing fs p = if contains fs.dirs p then is_a_directory else no_such_file

content : FsError → Option Text → Result FsError Text
content e none = err e
content e (some bytes) = ok bytes

-- `os.ReadFile`
unfoldable pub read_file : Files → Text → Result FsError Text
unfolding missing content
read_file fs p = content (missing fs p) (lookup p fs.contents)

-- `os.WriteFile`
unfoldable pub write_file : Files → Text → Text → Files × Option FsError
write_file fs p bytes =
    if contains fs.dirs p
    then (fs, some is_a_directory)
    else if contains fs.dirs (dir p)
    then (record fs { contents = insert p bytes fs.contents }, none)
    else (fs, some no_such_file)

-- Does a file or a directory stand in `p`?
any_in : Text → List Text → Bool
any_in p [] = false
any_in p (q ∷ qs) = (dir q ≟ p && (if q ≟ p then false else true)) || any_in p qs

abbrev pub keys_of {ℓ} : {A : Type ℓ} → Dict Text A → List Text
keys_of [] = []
keys_of ((k, v) ∷ m) = k ∷ keys_of m

without : Text → List Text → List Text
without p [] = []
without p (q ∷ qs) = if q ≟ p then without p qs else q ∷ without p qs

remove_dir : Files → Text → Files × Option FsError
unfolding any_in without
remove_dir fs p =
    if contains fs.dirs p
    then (if any_in p (keys_of fs.contents ++ fs.dirs)
        then (fs, some not_empty)
        else (record fs { dirs = without p fs.dirs }, none))
    else (fs, some no_such_file)

remove_found : Files → Text → Option Text → Files × Option FsError
unfolding remove_dir
remove_found fs p (some bytes) = (record fs { contents = erase p fs.contents }, none)
remove_found fs p none = remove_dir fs p

-- `os.Remove`
unfoldable pub remove : Files → Text → Files × Option FsError
unfolding remove_found
remove fs p = remove_found fs p (lookup p fs.contents)

abbrev pub is_file : Option Text → Bool
is_file none = false
is_file (some bytes) = true

-- `os.Stat(p)` without an error.
unfoldable pub stat : Files → Text → Bool
stat fs p = is_file (lookup p fs.contents) || contains fs.dirs p

-- The paths that lead to a clean path, itself included.
prefixes : List Text → List Text → List Text
prefixes acc [] = []
prefixes acc (c ∷ cs) =
    let p = slashed (reverse_onto (c ∷ acc) []) in
    (if is_nil p then codes "/" else p) ∷ prefixes (c ∷ acc) cs

any_file : Files → List Text → Bool
any_file fs [] = false
any_file fs (p ∷ ps) = is_file (lookup p fs.contents) || any_file fs ps

-- `os.MkdirAll`, of a clean path.
unfoldable pub mkdir_all : Files → Text → Files × Option FsError
unfolding prefixes any_file
mkdir_all fs p =
    let ps = prefixes [] (split p b'/') in
    if any_file fs ps
    then (fs, some not_a_directory)
    else (record fs { dirs = fs.dirs ++ ps }, none)

-- The components of a clean path.
components : Text → List Text
components p = if p ≟ codes "." then [] else if p ≟ codes "/" then [] ∷ [] else split p b'/'

is_below : List Text → List Text → Bool
is_below [] [] = false
is_below [] (d ∷ ds) = true
is_below (c ∷ cs) [] = false
is_below (c ∷ cs) (d ∷ ds) = c ≟ d && is_below cs ds

-- The order in which a walk comes to two paths: names in lexical order, a directory before what it
-- holds.
comes_before : List Text → List Text → Bool
comes_before [] [] = false
comes_before [] (d ∷ ds) = true
comes_before (c ∷ cs) [] = false
comes_before (c ∷ cs) (d ∷ ds) = text_lt c d || (c ≟ d && comes_before cs ds)

insert_path : Text → List Text → List Text
unfolding components comes_before
insert_path p [] = p ∷ []
insert_path p (q ∷ qs) =
    if comes_before (components p) (components q) then p ∷ q ∷ qs else q ∷ insert_path p qs

-- The files below a directory, in the order of a walk.
files_below : Text → List Text → List Text
unfolding insert_path is_below components
files_below root [] = []
files_below root (p ∷ ps) =
    let rest = files_below root ps in
    if is_below (components root) (components p) then insert_path p rest else rest

-- The files that `filepath.Walk(root, …)` visits; a root that does not exist is an error. The
-- source's functions return at once on directories.
unfoldable pub walk : Files → Text → Result FsError (List Text)
unfolding files_below
walk fs root =
    if is_file (lookup root fs.contents)
    then ok (root ∷ [])
    else if contains fs.dirs root
    then ok (files_below root (keys_of fs.contents))
    else err no_such_file
