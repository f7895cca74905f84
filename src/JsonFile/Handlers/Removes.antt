-- ===== src/JsonFile/Handlers/Removes.antt =====
-- pkg/filepath/jsonfile_rest.go: what `Delete` removes is not found again.
use apiserver_runtime_exampl.Base.{
  ℕ, ◌≡◌, refl, sym, ap, ◌∙◌, subst, inl, inr, Bool-cases, Bool, true, false, not, has_prefix,
  has_text, contains, arith, text_eq, Option, none, [], ◌∷◌, ◌++◌, Text, codes, if◌then◌else◌, done,
  >>=-eq-done, done-injective, Result, ok, err,
}
use apiserver_runtime_exampl.Os.Paths.{clean}
use apiserver_runtime_exampl.Os.Files.{FsError, no_such_file, remove, read_file}
use apiserver_runtime_exampl.Watch.{Event, deleted}
use apiserver_runtime_exampl.Channel.{Heap}
use apiserver_runtime_exampl.JsonFile.{
  FilepathRest, RestError, ReadError, file_not_exists, unreadable, not_found, message, notify_all,
  notify_watchers, read, get, object_file_name, content_of, got, exists,
}
use apiserver_runtime_exampl.JsonFile.Names.{IsRooted, IsFileName, file_name-clean}
use apiserver_runtime_exampl.JsonFile.Handlers.{Answer, validation, removed, delete_got, delete}
use apiserver_runtime_exampl.JsonFile.Handlers.Written.{on}
use apiserver_runtime_exampl.JsonFile.Handlers.Reads.{unless-ok}
use apiserver_runtime_exampl.Os.Files.Reading.{without_file, remove-read_file, read_file-removed}

has_prefix_self : (xs : Text) → has_prefix xs xs ≡ true
has_prefix_self [] = refl
has_prefix_self (x ∷ xs) = ground (arith, has_prefix_self xs)

has_text_self : (y : ℕ) (ys : Text) → has_text (y ∷ ys) (y ∷ ys) ≡ true
has_text_self y ys = rw (has_prefix_self (y ∷ ys)) refl

has_text-append : (xs ys zs : Text) → has_text ys zs ≡ true → has_text (xs ++ ys) zs ≡ true
has_text-append [] ys zs h = h
has_text-append (x ∷ xs) ys zs h = ground (arith, has_text-append xs ys zs h)

-- The message of an error on a missing file is recognised.
missing_message :
    (p : Text)
    → has_text (message (unreadable p no_such_file)) (codes "no such file or directory") ≡ true
unfolding message
missing_message p =
    has_text-append (codes "open " ++ p) (codes ": no such file or directory")
      (codes "no such file or directory") refl

module _ {ℓ} {O : Type ℓ} where
  got-ok : (name : Text) (m : Result ReadError O) {obj : O} → got name m ≡ ok obj → m ≡ ok obj
  unfolding got
  got-ok name (ok obj) h = cc
  got-ok name (err e) h =
      elim (Bool-cases (has_text (message e) (codes "no such file or directory"))) [
        | inl missing ↦ let wrong = rw missing at h in cc
        | inr other ↦ let wrong = rw other at h in cc
      ]

  got-missing :
      (name p : Text)
      → ◌≡◌ {A = Result RestError O}
          (got name (err (unreadable p no_such_file)))
          (err (not_found name))
  unfolding got
  got-missing name p = rw (missing_message p) refl

module _ {ℓ κ} {O : Type ℓ} {L : Type κ} where
  content_of-ok :
      (f : FilepathRest O L) (p : Text) (m : Result FsError Text) {obj : O}
      → content_of f p m ≡ ok obj
      → (bytes : Text) × (m ≡ ok bytes)
  unfolding content_of
  content_of-ok f p (ok bytes) h = (bytes, refl)
  content_of-ok f p (err e) h = cc

  -- What `Get` found can be removed.
  get-remove :
      (f : FilepathRest O L) (ctx : Option Text) (name : Text) {obj : O}
      → IsRooted f
      → IsFileName f ctx name
      → get f ctx name ≡ ok obj
      → remove f.disk (object_file_name f ctx name)
        ≡ (without_file f.disk (object_file_name f ctx name), none)
  unfolding get read
  get-remove f ctx name v k found =
      let p = object_file_name f ctx name in
      let (bytes, there) =
        content_of-ok f (clean p) (read_file f.disk (clean p))
          (got-ok name (read f f.disk p) found) in
      remove-read_file f.disk p
        (subst (λ q. read_file f.disk q ≡ ok bytes) (file_name-clean f ctx name v k) there)

  get-without :
      (f : FilepathRest O L) (ctx : Option Text) (name : Text) (h : Heap (Event O))
      → IsRooted f
      → IsFileName f ctx name
      → contains f.disk.dirs (object_file_name f ctx name) ≡ false
      → get (on f (without_file f.disk (object_file_name f ctx name)) h) ctx name
        ≡ err (not_found name)
  unfolding get read object_file_name content_of
  get-without f ctx name h v k no_dir =
      let p = object_file_name f ctx name in
      let left = without_file f.disk p in
      ap (λ q. got name (content_of (on f left h) q (read_file left q)))
        (file_name-clean f ctx name v k)
      ∙ ap (λ m. got name (content_of (on f left h) p m)) (read_file-removed f.disk p no_dir)
      ∙ got-missing name p

  removed-lem :
      (f f' : FilepathRest O L) (ctx : Option Text) (name : Text) (obj : O) (answer : O × Bool)
      → IsRooted f
      → IsFileName f ctx name
      → contains f.disk.dirs (object_file_name f ctx name) ≡ false
      → removed f obj (without_file f.disk (object_file_name f ctx name), none)
        ≡ done (f', ok answer)
      → (answer.0 ≡ obj) × (get f' ctx name ≡ err (not_found name))
  unfolding removed notify_watchers
  removed-lem f f' ctx name obj answer v k no_dir ran =
      let ev : Event O = record { event_type = deleted; object = obj } in
      let left = record f { disk = without_file f.disk (object_file_name f ctx name) } in
      let (g, told, same) = >>=-eq-done (notify_watchers left ev) _ ran in
      let (h, _, step) = >>=-eq-done (notify_all f.watchers ev f.chans) _ told in
      let both = done-injective same in
      let first = ap (λ x. x.0) both in
      let second = ap (λ x. x.1) both in
      let pair : ◌≡◌ {A = O × Bool} (obj, true) answer = cc in
      (
        sym (ap (λ a. a.0) pair),
        subst (λ y. get y ctx name ≡ err (not_found name)) (done-injective step ∙ first)
            (get-without f ctx name h v k no_dir),
      )

  delete_got-lem :
      (f f' : FilepathRest O L) (ctx : Option Text) (name : Text) (check : Option (O → Option Text))
      (answer : O × Bool) (m : Result RestError O)
      → IsRooted f
      → IsFileName f ctx name
      → contains f.disk.dirs (object_file_name f ctx name) ≡ false
      → get f ctx name ≡ m
      → delete_got f (object_file_name f ctx name) check m ≡ done (f', ok answer)
      → (get f ctx name ≡ ok answer.0) × (get f' ctx name ≡ err (not_found name))
  unfolding delete_got
  delete_got-lem f f' ctx name check answer (err e) v k no_dir found ran =
      let wrong = ap (λ x. x.1) (done-injective ran) in cc
  delete_got-lem f f' ctx name check answer (ok old) v k no_dir found ran =
      let p = object_file_name f ctx name in
      let (same, gone) = removed-lem f f' ctx name old answer v k no_dir (
        subst (λ w. removed f old w ≡ done (f', ok answer)) (get-remove f ctx name v k found)
          (unless-ok f f' (validation check old) (removed f old (remove f.disk p)) ran)) in
      (found ∙ ap ok (sym same), gone)

  delete_found :
      (f f' : FilepathRest O L) (ctx : Option Text) (name : Text) (check : Option (O → Option Text))
      (answer : O × Bool)
      → IsRooted f
      → IsFileName f ctx name
      → contains f.disk.dirs (object_file_name f ctx name) ≡ false
      → (there : Bool)
      → ◌≡◌ {A = Answer O L (O × Bool)}
          (if not there
            then done (f, err file_not_exists)
            else delete_got f (object_file_name f ctx name) check (get f ctx name))
          (done (f', ok answer))
      → (get f ctx name ≡ ok answer.0) × (get f' ctx name ≡ err (not_found name))
  delete_found f f' ctx name check answer v k no_dir true ran =
      delete_got-lem f f' ctx name check answer (get f ctx name) v k no_dir refl ran
  delete_found f f' ctx name check answer v k no_dir false ran =
      let wrong = ap (λ x. x.1) (done-injective ran) in cc

  -- `Delete` that succeeds answers with the object that `Get` had read, and `Get` then says that
  -- there is none.
  pub delete-removes :
      (f f' : FilepathRest O L) (ctx : Option Text) (name : Text) (check : Option (O → Option Text))
      (answer : O × Bool)
      → IsRooted f
      → IsFileName f ctx name
      → contains f.disk.dirs (object_file_name f ctx name) ≡ false
      → delete f ctx name check ≡ done (f', ok answer)
      → (get f ctx name ≡ ok answer.0) × (get f' ctx name ≡ err (not_found name))
  unfolding delete
  delete-removes f f' ctx name check answer v k no_dir ran =
      delete_found f f' ctx name check answer v k no_dir
        (exists f.disk (object_file_name f ctx name)) ran
