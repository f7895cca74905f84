-- ===== src/JsonFile/Names.antt =====
-- pkg/filepath/jsonfile_rest.go, `objectFileName`: the files of plain names.
use apiserver_runtime_exampl.Base.{
  ◌≡◌, inl, inr, Bool-cases, Bool, true, false, Option, List, [], ◌∷◌, ◌++◌, Text, codes, has_char,
  All,
}
use apiserver_runtime_exampl.Os.Paths.{clean}
use apiserver_runtime_exampl.Os.Paths.Components.{IsPlain, path, clean-join}
use apiserver_runtime_exampl.Store.File.Names.{json-IsPlain}
use apiserver_runtime_exampl.JsonFile.{FilepathRest, namespace_of, object_file_name}

module _ {ℓ κ} {O : Type ℓ} {L : Type κ} where
  -- The object directory is named by plain components.
  pub record IsRooted (f : FilepathRest O L) : Type (ℓ ⊔ κ) where
    pub rooted : Bool
    pub first : Text
    pub rest : List Text
    pub plain : All IsPlain (first ∷ rest)
    pub is_path : f.obj_root_path ≡ path rooted (first ∷ rest)

  -- A name, and a context's namespace where the resource has one, that name files.
  pub record IsFileName (f : FilepathRest O L) (ctx : Option Text) (n : Text) : Type 0 where
    pub namespace : f.is_namespaced ≡ true → IsPlain (namespace_of ctx)
    pub name : has_char n b'/' ≡ false

  pub file_name-clean :
      (f : FilepathRest O L) (ctx : Option Text) (name : Text)
      → IsRooted f
      → IsFileName f ctx name
      → clean (object_file_name f ctx name) ≡ object_file_name f ctx name
  unfolding object_file_name
  file_name-clean f ctx name v k = elim (Bool-cases f.is_namespaced) [
    | inl yes_ns ↦
        rw (yes_ns, v.is_path)
          (clean-join v.rooted v.first (namespace_of ctx) v.rest ((name ++ codes ".json") ∷ [])
            v.plain (k.namespace yes_ns, (json-IsPlain name k.name, tt)))
    | inr flat ↦
        rw (flat, v.is_path)
          (clean-join v.rooted v.first (name ++ codes ".json") v.rest [] v.plain
            (json-IsPlain name k.name, tt))
  ]
