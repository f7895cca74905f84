-- ===== src/JsonFile/Handlers.antt =====
-- pkg/filepath/jsonfile_rest.go: the handlers.
pub mod Written
pub mod Reads
pub mod Updates
pub mod Removes
use apiserver_runtime_exampl.Base.{
  ℕ, Bool, true, false, not, Option, none, some, List, [], ◌∷◌, ◌++◌, Text, codes, if◌then◌else◌,
  has_suffix, Outcome, done, ◌>>=◌, Result, ok, err,
}
use apiserver_runtime_exampl.Os.Paths.{join, base_name}
use apiserver_runtime_exampl.Os.Files.{Files, FsError, remove, walk}
use apiserver_runtime_exampl.Watch.{Event, EventType, added, modified, deleted}
use apiserver_runtime_exampl.JsonFile.{
  FilepathRest, Meta, ReadError, RestError, invalid, namespace_not_exists, file_not_exists,
  cannot_make_dir, cannot_remove, no_accessor, no_update, not_a_list, failed_walking, exists,
  ensure_dir, notify_watchers, object_file_name, object_dir_name, write, read, get,
}

-- What a handler comes back with.
abbrev pub Answer {ℓ κ μ} : Type ℓ → Type κ → Type μ → Type (ℓ ⊔ κ ⊔ μ)
Answer O L A = Outcome (FilepathRest O L × Result RestError A)

accessor : Option Text → Option RestError
accessor none = none
accessor (some e) = some (no_accessor e)

module _ {ℓ} {O : Type ℓ} where
  -- A validation that may be nil; it gives back the text of its error.
  validation : Option (O → Option Text) → O → Option RestError
  validation none obj = none
  validation (some v) obj = elim (v obj) [ none ↦ none | some e ↦ some (invalid e) ]

  update_validation : Option (O → O → Option Text) → O → O → Option RestError
  update_validation none new old = none
  update_validation (some v) new old = elim (v new old) [ none ↦ none | some e ↦ some (invalid e) ]

module _ {ℓ κ} {O : Type ℓ} {L : Type κ} where
  -- `if err != nil { return …, err }`
  pub unless {μ} : {A : Type μ} → FilepathRest O L → Option RestError → Answer O L A → Answer O L A
  unless f (some e) next = done (f, err e)
  unless f none next = next

  made : FilepathRest O L → Files × Option FsError → FilepathRest O L × Option RestError
  made f (disk, none) = (record f { disk = disk }, none)
  made f (disk, some e) = (record f { disk = disk }, some (cannot_make_dir e))

  -- The directory of the namespace, which `Create` and `Update` make.
  pub ensure_namespace : FilepathRest O L → Option Text → FilepathRest O L × Option RestError
  unfolding made
  ensure_namespace f none = if f.is_namespaced then (f, some namespace_not_exists) else (f, none)
  ensure_namespace f (some ns) =
      if f.is_namespaced
      then made f (ensure_dir f.disk (join (f.obj_root_path ∷ ns ∷ [])))
      else (f, none)

  -- The watchers are told of an object that was written.
  pub saved {μ} :
      {A : Type μ} → EventType → O → A → FilepathRest O L × Option RestError → Answer O L A
  saved t obj answer (f, some e) = done (f, err e)
  saved t obj answer (f, none) = do
    f' ← notify_watchers f (record { event_type = t; object = obj })
    done (f', ok answer)

  create_named : FilepathRest O L → Text → O → Answer O L O
  unfolding saved
  create_named f filename obj =
      if exists f.disk filename
      then done (f, err file_not_exists)
      else saved added obj obj (write f filename obj)

  create_in : Option Text → O → Text → FilepathRest O L × Option RestError → Answer O L O
  unfolding unless create_named accessor
  create_in ctx obj uid (f, some e) = done (f, err e)
  create_in ctx obj uid (f, none) =
      let obj' = f.meta.set_uid obj uid in
      unless f (accessor (f.meta.accessor_error obj))
        (create_named f (object_file_name f ctx (f.meta.get_name obj')) obj')

  -- `Create`; `uid` is what `uuid.NewUUID` answers.
  unfoldable pub create :
      FilepathRest O L → Option Text → O → Option (O → Option Text) → Text → Answer O L O
  unfolding unless validation ensure_namespace create_in
  create f ctx obj create_validation uid =
      unless f (validation create_validation obj) (create_in ctx obj uid (ensure_namespace f ctx))

  -- The end of `Update`, with the object that was there.
  write_updated :
      FilepathRest O L
      → Text
      → O
      → Option O
      → Option (O → Option Text)
      → Option (O → O → Option Text)
      → Answer O L (O × Bool)
  unfolding unless validation update_validation saved
  write_updated f filename new none create_validation update_val =
      unless f (validation create_validation new)
        (saved added new (new, true) (write f filename new))
  write_updated f filename new (some old) create_validation update_val =
      unless f (update_validation update_val new old)
        (saved modified new (new, false) (write f filename new))

  with_updated :
      FilepathRest O L
      → Text
      → Option O
      → Option (O → Option Text)
      → Option (O → O → Option Text)
      → Result Text O
      → Answer O L (O × Bool)
  unfolding write_updated
  with_updated f filename old cv uv (err e) = done (f, err (no_update e))
  with_updated f filename old cv uv (ok new) = write_updated f filename new old cv uv

  update_in :
      Option Text
      → Text
      → (Option O → Result Text O)
      → Option (O → Option Text)
      → Option (O → O → Option Text)
      → Option O
      → FilepathRest O L × Option RestError
      → Answer O L (O × Bool)
  unfolding with_updated
  update_in ctx name updated_object cv uv old (f, some e) = done (f, err e)
  update_in ctx name updated_object cv uv old (f, none) =
      with_updated f (object_file_name f ctx name) old cv uv (updated_object old)

  update_got :
      FilepathRest O L
      → Option Text
      → Text
      → (Option O → Result Text O)
      → Option (O → Option Text)
      → Option (O → O → Option Text)
      → Bool
      → Result RestError O
      → Answer O L (O × Bool)
  unfolding update_in ensure_namespace
  update_got f ctx name updated_object cv uv force (ok old) =
      update_in ctx name updated_object cv uv (some old) (ensure_namespace f ctx)
  update_got f ctx name updated_object cv uv force (err e) =
      if not force
      then done (f, err e)
      else update_in ctx name updated_object cv uv none (ensure_namespace f ctx)

  -- `Update`; the flag of its answer says that the object was created.
  unfoldable pub update :
      FilepathRest O L
      → Option Text
      → Text
      → (Option O → Result Text O)
      → Option (O → Option Text)
      → Option (O → O → Option Text)
      → Bool
      → Answer O L (O × Bool)
  unfolding update_got
  update f ctx name updated_object cv uv force =
      update_got f ctx name updated_object cv uv force (get f ctx name)

  removed : FilepathRest O L → O → Files × Option FsError → Answer O L (O × Bool)
  removed f old (disk, some e) = done (record f { disk = disk }, err (cannot_remove e))
  removed f old (disk, none) = do
    f' ← notify_watchers (record f { disk = disk }) (record { event_type = deleted; object = old })
    done (f', ok (old, true))

  delete_got :
      FilepathRest O L
      → Text
      → Option (O → Option Text)
      → Result RestError O
      → Answer O L (O × Bool)
  unfolding unless validation removed
  delete_got f filename v (err e) = done (f, err e)
  delete_got f filename v (ok old) =
      unless f (validation v old) (removed f old (remove f.disk filename))

  -- `Delete`
  unfoldable pub delete :
      FilepathRest O L → Option Text → Text → Option (O → Option Text) → Answer O L (O × Bool)
  unfolding delete_got
  delete f ctx name delete_validation =
      let filename = object_file_name f ctx name in
      if not (exists f.disk filename)
      then done (f, err file_not_exists)
      else delete_got f filename delete_validation (get f ctx name)
