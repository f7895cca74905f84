-- ===== src/Generator/Tests.antt =====
-- Runs of the tool that runs the code generators.
use apiserver_runtime_exampl.Base.{
  ◌≡◌, refl, true, false, lookup, some, List, [], ◌∷◌, Text, codes, arith, text_eq, Text-discrete,
  ℕ_discrete,
}
use apiserver_runtime_exampl.Os.Paths.{slashed, path_of, clean, join}
use apiserver_runtime_exampl.Os.Paths.Components.{IsPlain, long-IsPlain}
use apiserver_runtime_exampl.Os.Files.{Files, stat}
use apiserver_runtime_exampl.Generator.{all_has_prefix, find_input_base, find_module_root}
use apiserver_runtime_exampl.Generator.InputBase.{find_input_base-apis}
use apiserver_runtime_exampl.Generator.ModuleRoot.{find_module_root-nearest}

-- A repository that is a module.
abbrev disk : Files
disk = record {
  contents = (codes "/home/repo/go.mod", codes "module example") ∷ [];
  dirs = codes "/" ∷ codes "/home" ∷ codes "/home/repo" ∷ codes "/home/repo/tools" ∷ [];
}

plain : IsPlain (codes "repo")
plain = long-IsPlain (codes "repo") refl (omega arith)

find_module_root-nearest_example :
    find_module_root disk 4 (path_of true (codes "tools" ∷ codes "repo" ∷ codes "home" ∷ []))
    ≡ some (codes "/home/repo")
unfolding path_of slashed stat lookup text_eq join ℕ_discrete
find_module_root-nearest_example =
    find_module_root-nearest disk 4 (codes "tools" ∷ codes "repo" ∷ codes "home" ∷ [])
      (
        long-IsPlain (codes "tools") refl (omega arith),
        (plain, (long-IsPlain (codes "home") refl (omega arith), tt)),
      )
      (omega arith)

abbrev versions : List Text
versions = codes "repo/apis/inv/v1alpha1" ∷ codes "repo/apis/config/v1alpha1" ∷ []

below_apis : all_has_prefix (join (codes "repo" ∷ codes "apis" ∷ [])) versions ≡ true
unfolding all_has_prefix join clean text_eq Text-discrete ℕ_discrete
below_apis = refl

find_input_base-apis_example :
    find_input_base (codes "repo") versions
    ≡ (join (codes "repo" ∷ codes "api" ∷ []), versions, true)
unfolding slashed
find_input_base-apis_example =
    find_input_base-apis false (codes "repo") [] versions (plain, tt) below_apis
