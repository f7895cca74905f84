-- ===== src/JsonFile/Watching/Collection.antt =====
-- pkg/filepath/jsonfile_rest.go: `DeleteCollection` removes files while it walks over them.
use apiserver_runtime_exampl.Base.{
  ◌≡◌, ◌≢◌, refl, sym, ap, ◌∙◌, inl, inr, Bool-cases, Bool, true, false, Option, List, [], ◌∷◌,
  ◌++◌, Text, codes, has_suffix, Result, ok, err, Result-cases, All,
}
use apiserver_runtime_exampl.Os.Paths.{clean, base_name}
use apiserver_runtime_exampl.Os.Files.{Files, FsError, read_file, remove, walk}
use apiserver_runtime_exampl.Os.Files.Reading.{
  without_file, remove-read_file, read_file-without_other,
}
use apiserver_runtime_exampl.JsonFile.{FilepathRest, read, content_of, object_dir_name}
use apiserver_runtime_exampl.JsonFile.Watching.{
  Seen, visited, go_on, append_item, remove_item, visit_file, visit_files, visit_walk, visit_dir,
  after_walk, walk_items, list, delete_collection,
}

-- Paths that are clean, no two of them the same.
abbrev pub AreWalked : List Text → Type 0
AreWalked [] = Unit
AreWalked (p ∷ ps) = (clean p ≡ p) × All (λ q. p ≢ q) ps × AreWalked ps

-- Two disks on which the files read the same.
abbrev Agree : Files → Files → List Text → Type 0
Agree d d' ps = All (λ p. read_file d' p ≡ read_file d p) ps

Agree-without :
    (d d' : Files) (p : Text) (ps : List Text)
    → All (λ q. p ≢ q) ps
    → Agree d d' ps
    → Agree d (without_file d' p) ps
Agree-without d d' p [] _ _ = tt
Agree-without d d' p (q ∷ qs) (other, others) (same, rest) =
    (read_file-without_other d' p q other ∙ same, Agree-without d d' p qs others rest)

module _ {ℓ κ} {O : Type ℓ} {L : Type κ} (f : FilepathRest O L) where
  content_of-ok :
      (p : Text) (m : Result FsError Text) {obj : O}
      → content_of f p m ≡ ok obj
      → (bytes : Text) × (m ≡ ok bytes)
  unfolding content_of
  content_of-ok p (ok bytes) h = (bytes, refl)
  content_of-ok p (err e) h = cc

  read-clean : (d : Files) (p : Text) → clean p ≡ p → read f d p ≡ content_of f p (read_file d p)
  unfolding read
  read-clean d p tidy = ap (λ q. content_of f q (read_file d q)) tidy

  -- The two walks: the same items, and the same end.
  abbrev Same : Seen O × Bool → Seen O × Bool → Type ℓ
  Same a b = (a.0.1 ≡ b.0.1) × (a.1 ≡ b.1)

  -- A file that was read can be removed.
  removed_lem :
      (d : Files) (p : Text) {obj : O}
      → clean p ≡ p
      → read f d p ≡ ok obj
      → (remove d p).0 ≡ without_file d p
  removed_lem d p tidy good =
      let (bytes, there) = content_of-ok p (read_file d p) (sym (read-clean d p tidy) ∙ good) in
      ap (λ x. x.0) (remove-read_file d p there)

  visit_files-Same :
      (ps : List Text) (d d' : Files) (items : List O)
      → AreWalked ps
      → Agree d d' ps
      → Same (visit_files f append_item ps (d, items)) (visit_files f remove_item ps (d', items))
  unfolding visit_files visit_file visited go_on append_item remove_item
  visit_files-Same [] d d' items _ _ = (refl, refl)
  visit_files-Same (p ∷ ps) d d' items (tidy, others, rest) (same, agree) =
      let equal : read f d p ≡ read f d' p =
        read-clean d p tidy ∙ ap (content_of f p) (sym same) ∙ sym (read-clean d' p tidy) in
      elim (Bool-cases (has_suffix (base_name p) (codes ".json"))) [
        | inr other ↦ rw other (visit_files-Same ps d d' items rest agree)
        | inl json ↦ elim (Result-cases (read f d' p)) [
          | inr (e, bad) ↦ rw (json, equal, bad) (refl, refl)
          | inl (obj, good) ↦
              rw (json, equal, good, removed_lem d' p tidy good)
                (visit_files-Same ps d (without_file d' p) (items ++ obj ∷ []) rest
                  (Agree-without d d' p ps others agree))
        ]
      ]

  Agree-refl : (d : Files) (ps : List Text) → Agree d d ps
  Agree-refl d [] = tt
  Agree-refl d (p ∷ ps) = (refl, Agree-refl d ps)

  after_walk-Same :
      (dirname : Text) (a b : Seen O × Bool)
      → Same a b
      → (after_walk f dirname a).1 ≡ (after_walk f dirname b).1
  unfolding after_walk
  after_walk-Same dirname ((d, items), true) ((d', items'), true) (same, _) =
      ap (λ x. ok (f.meta.with_items f.new_list_func x)) same
  after_walk-Same dirname ((d, items), true) ((d', items'), false) (_, wrong) = cc
  after_walk-Same dirname ((d, items), false) ((d', items'), true) (_, wrong) = cc
  after_walk-Same dirname ((d, items), false) ((d', items'), false) _ = refl

  walk_items-Same :
      (dirname : Text) (ps : List Text) (m : Result Text (List O))
      → walk f.disk dirname ≡ ok ps
      → AreWalked ps
      → (walk_items f dirname append_item m).1 ≡ (walk_items f dirname remove_item m).1
  unfolding walk_items visit_dir visit_walk
  walk_items-Same dirname ps (err e) walked tidy = refl
  walk_items-Same dirname ps (ok items) walked tidy = rw walked (
      after_walk-Same dirname (visit_files f append_item ps (f.disk, items))
        (visit_files f remove_item ps (f.disk, items))
        (visit_files-Same ps f.disk f.disk items tidy (Agree-refl f.disk ps)))

  -- If the walk comes to clean paths, no two of them the same, `DeleteCollection` answers with the
  -- list, or the error, that `List` answers with: the removals do not disturb the walk.
  pub delete_collection-list :
      (ctx : Option Text) (ps : List Text)
      → walk f.disk (object_dir_name f ctx) ≡ ok ps
      → AreWalked ps
      → (list f ctx).1 ≡ (delete_collection f ctx).1
  unfolding list delete_collection
  delete_collection-list ctx ps walked tidy =
      walk_items-Same (object_dir_name f ctx) ps (f.meta.items_ptr f.new_list_func) walked tidy
