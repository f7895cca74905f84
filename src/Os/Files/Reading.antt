-- ===== src/Os/Files/Reading.antt =====
-- What is read of a file that was written, or removed.
use apiserver_runtime_exampl.Base.{
  ◌≡◌, ◌≢◌, refl, sym, ap, subst, inl, inr, Bool-cases, false, contains, Option, none, some, Text,
  text_eq, ≟_refl, ≟_ne, lookup, insert, erase, lookup-insert, lookup-erase, ok, err,
}
use apiserver_runtime_exampl.Os.Paths.{dir}
use apiserver_runtime_exampl.Os.Files.{
  Files, FsError, no_such_file, missing, content, read_file, write_file, remove,
}

abbrev pub with_bytes : Files → Text → Text → Files
with_bytes fs p bytes = record fs { contents = insert p bytes fs.contents }

abbrev pub without_file : Files → Text → Files
without_file fs p = record fs { contents = erase p fs.contents }

pub read_file-with_bytes :
    (fs : Files) (p bytes : Text) → read_file (with_bytes fs p bytes) p ≡ ok bytes
unfolding read_file
read_file-with_bytes fs p bytes = rw (lookup-insert p p bytes fs.contents, ≟_refl p) refl

pub read_file-with_bytes_other :
    (fs : Files) (p q bytes : Text) → p ≢ q → read_file (with_bytes fs p bytes) q ≡ read_file fs q
unfolding read_file
read_file-with_bytes_other fs p q bytes other =
    rw (lookup-insert p q bytes fs.contents, ≟_ne p q other) refl

-- A file that was removed is missing.
pub read_file-without :
    (fs : Files) (p : Text) → (e : FsError) × (read_file (without_file fs p) p ≡ err e)
unfolding read_file
read_file-without fs p = (missing fs p, rw (lookup-erase p p fs.contents, ≟_refl p) refl)

pub read_file-without_other :
    (fs : Files) (p q : Text) → p ≢ q → read_file (without_file fs p) q ≡ read_file fs q
unfolding read_file
read_file-without_other fs p q other = rw (lookup-erase p q fs.contents, ≟_ne p q other) refl

-- A write that fails changes nothing.
pub write_file-failed :
    (fs fs' : Files) (p bytes : Text) {e : FsError}
    → write_file fs p bytes ≡ (fs', some e)
    → fs' ≡ fs
unfolding write_file
write_file-failed fs fs' p bytes h = elim (Bool-cases (contains fs.dirs p)) [
  | inl d ↦ ap (λ x. x.0) (sym (rw d at h))
  | inr d ↦ elim (Bool-cases (contains fs.dirs (dir p))) [
    | inl up ↦ let wrong = ap (λ x. x.1) (rw (d, up) at h) in cc
    | inr up ↦ ap (λ x. x.0) (sym (rw (d, up) at h))
  ]
]

content-ok :
    (e : FsError) (o : Option Text) {bytes : Text} → content e o ≡ ok bytes → o ≡ some bytes
unfolding content
content-ok e none h = cc
content-ok e (some b) h = cc

-- A file that is read is removed without an error.
pub remove-read_file :
    (fs : Files) (p : Text) {bytes : Text}
    → read_file fs p ≡ ok bytes
    → remove fs p ≡ (without_file fs p, none)
unfolding read_file remove
remove-read_file fs p h = rw (content-ok (missing fs p) (lookup p fs.contents) h) refl

-- A write without an error is read back.
pub read_file-write_file :
    (fs fs' : Files) (p bytes : Text)
    → write_file fs p bytes ≡ (fs', none)
    → read_file fs' p ≡ ok bytes
unfolding write_file
read_file-write_file fs fs' p bytes h = elim (Bool-cases (contains fs.dirs p)) [
  | inl d ↦ let wrong = ap (λ x. x.1) (rw d at h) in cc
  | inr d ↦ elim (Bool-cases (contains fs.dirs (dir p))) [
    | inl up ↦
        let end : with_bytes fs p bytes ≡ fs' = ap (λ x. x.0) (rw (d, up) at h) in
        subst (λ y. read_file y p ≡ ok bytes) end (read_file-with_bytes fs p bytes)
    | inr up ↦ let wrong = ap (λ x. x.1) (rw (d, up) at h) in cc
  ]
]

-- A file that was removed does not exist.
pub read_file-removed :
    (fs : Files) (p : Text)
    → contains fs.dirs p ≡ false
    → read_file (without_file fs p) p ≡ err no_such_file
unfolding read_file missing content
read_file-removed fs p no_dir = rw (lookup-erase p p fs.contents, ≟_refl p, no_dir) refl
