-- ===== src/Store/File/Visits.antt =====
-- pkg/store/file/util.go, `visitDir`: both splits are of the path, so the first JSON file ends the
-- walk.
use apiserver_runtime_exampl.Base.{
  ℕ, ◌≡◌, refl, ap, inl, inr, Bool-cases, true, Option, none, some, List, [], ◌∷◌, codes, Text,
  split, length, leb, arith, Result, ok, err, has_suffix, if◌then◌else◌,
}
use apiserver_runtime_exampl.Os.Paths.{base_name}
use apiserver_runtime_exampl.Os.Files.{FsError, walk}
use apiserver_runtime_exampl.Store.Key.{Key}
use apiserver_runtime_exampl.Store.File.{
  File, FileError, visit_file, visit_files, visit_walk, visit_dir, list, path_too_small,
}

module _ {ℓ κ μ} {O : Type ℓ} {T : Type κ} (as_type : O → Option T) (as_object : T → Option O)
    {S : Type μ} (r : File O T) (visitor : Option (Key → T → S → S)) where
  leb_refl : (n : ℕ) → leb n n ≡ true
  leb_refl n = ground arith

  -- What becomes of one file.
  visit_file_lem :
      (p : Text) (s : S)
      → visit_file as_type as_object r visitor p s
        ≡ (s, if has_suffix (base_name p) (codes ".json") then some (path_too_small p) else none)
  unfolding visit_file
  visit_file_lem p s = ground (arith, leb_refl (length (split p b'/')))

  -- The error that the first JSON file gives.
  abbrev pub first_json : List Text → Option FileError
  first_json [] = none
  first_json (p ∷ ps) =
      if has_suffix (base_name p) (codes ".json") then some (path_too_small p) else first_json ps

  visit_files_lem :
      (ps : List Text) (s : S) → visit_files as_type as_object r visitor ps s ≡ (s, first_json ps)
  unfolding visit_files
  visit_files_lem [] s = refl
  visit_files_lem (p ∷ ps) s =
      rw (visit_file_lem p s) (elim (Bool-cases (has_suffix (base_name p) (codes ".json"))) [
        | inl json ↦ rw json refl
        | inr other ↦ rw other (visit_files_lem ps s)
      ])

  -- A walk never calls the visitor, and ends with the error of the first JSON file.
  pub visit_dir-fails :
      (ps : List Text) (s : S)
      → walk r.disk r.obj_root_path ≡ ok ps
      → visit_dir as_type as_object r visitor s ≡ (s, first_json ps)
  unfolding visit_dir
  visit_dir-fails ps s walked = rw walked (visit_files_lem ps s)

  walked_cases :
      (w : Result FsError (List Text)) (s : S) → (visit_walk as_type as_object r visitor w s).0 ≡ s
  unfolding visit_walk
  walked_cases (ok ps) s = ap (λ x. x.0) (visit_files_lem ps s)
  walked_cases (err e) s = refl

  -- `List` gives the visitor no object, whatever the files are.
  pub list-stays : (s : S) → list as_type as_object r visitor s ≡ s
  unfolding list visit_dir
  list-stays s = walked_cases (walk r.disk r.obj_root_path) s
