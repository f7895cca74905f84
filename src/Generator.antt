-- ===== src/Generator.antt =====
-- tools/apiserver-runtime-gen/main.go: the tool that runs the code generators. `run` stands for the
-- start of a program; what `runE` and `main` do with the environment and the flags is left out.
pub mod InputBase
pub mod ModuleRoot
mod Tests
use apiserver_runtime_exampl.Base.{
  ℕ, zero, suc, Bool, true, false, not, Option, none, some, List, [], ◌∷◌, ◌++◌, map, Text, codes,
  is_nil, contains, if◌then◌else◌, has_prefix, trim_prefix, join_with, text_eq, ◌≟◌, Result, ok,
  err,
}
use apiserver_runtime_exampl.Os.Paths.{join, dir}
use apiserver_runtime_exampl.Os.Files.{Files, stat}

-- The variables of the program.
pub record Settings : Type 0 where
  pub generators : List Text
  pub header : Text
  pub go_module : Text
  pub versions : List Text
  pub bin : Text
  pub output : Text

pub data FlagError : Type 0 where
  must_specify_module must_specify_versions : FlagError

-- `preRunE`
unfoldable pub pre_run : Settings → Result FlagError (Unit {0})
pre_run s =
    if is_nil s.go_module
    then err must_specify_module
    else if is_nil s.versions
    then err must_specify_versions
    else ok tt

-- `allHasPrefix` and `allTrimPrefix`
unfoldable pub all_has_prefix : Text → List Text → Bool
all_has_prefix prefix [] = true
all_has_prefix prefix (p ∷ ps) =
    let rest = all_has_prefix prefix ps in if not (has_prefix p prefix) then false else rest

unfoldable pub all_trim_prefix : Text → List Text → List Text
all_trim_prefix prefix versions = map (λ v. trim_prefix v prefix) versions

-- `findInputBase`
unfoldable pub find_input_base : Text → List Text → Text × List Text × Bool
find_input_base go_module versions =
    if all_has_prefix (join (go_module ∷ codes "api" ∷ [])) versions
    then (let base = join (go_module ∷ codes "api" ∷ []) in
        (base, all_trim_prefix (base ++ codes "/") versions, true))
    else if all_has_prefix (join (go_module ∷ codes "apis" ∷ [])) versions
    then (let base = join (go_module ∷ codes "apis" ∷ []) in
        (base, all_trim_prefix (base ++ codes "/") versions, true))
    else ([], [], false)

-- The arguments of the command that `getCmd` makes, its name first.
unfoldable pub get_cmd : Settings → Text → List Text → List Text
get_cmd s cmd args =
    join (s.bin ∷ cmd ∷ [])
    ∷ codes "--output-base"
    ∷ s.output
    ∷ codes "--go-header-file"
    ∷ s.header
    ∷ args

deepcopy_args : Settings → List Text
deepcopy_args s =
    codes "--input-dirs"
    ∷ join_with s.versions (codes ",")
    ∷ codes "-O"
    ∷ codes "zz_generated.deepcopy"
    ∷ codes "--bounding-dirs"
    ∷ join (s.go_module ∷ codes "apis" ∷ [])
    ∷ []

openapi_args : Settings → List Text
openapi_args s =
    codes "--input-dirs"
    ∷ (codes "k8s.io/apimachinery/pkg/api/resource,"
        ++ codes "k8s.io/apimachinery/pkg/apis/meta/v1,"
        ++ codes "k8s.io/apimachinery/pkg/runtime,"
        ++ codes "k8s.io/apimachinery/pkg/version,"
        ++ join_with s.versions (codes ","))
    ∷ codes "-O"
    ∷ codes "zz_generated.openapi"
    ∷ codes "--output-package"
    ∷ join (s.go_module ∷ codes "apis/generated/openapi" ∷ [])
    ∷ []

versions_inputs : Settings → Text × List Text × Bool → Text
versions_inputs s (base, stripped, found) =
    if found then join_with stripped (codes ",") else join_with s.versions (codes ",")

client_args : Settings → List Text
unfolding versions_inputs
client_args s =
    codes "--clientset-name"
    ∷ codes "versioned"
    ∷ codes "--input-base"
    ∷ []
    ∷ codes "--input"
    ∷ versions_inputs s (find_input_base s.go_module s.versions)
    ∷ codes "--output-package"
    ∷ join (s.go_module ∷ codes "apis/generated/clientset" ∷ [])
    ∷ []

lister_args : Settings → List Text
lister_args s =
    codes "--input-dirs"
    ∷ join_with s.versions (codes ",")
    ∷ codes "--output-package"
    ∷ join (s.go_module ∷ codes "apis/generated/listers" ∷ [])
    ∷ []

informer_args : Settings → List Text
informer_args s =
    codes "--input-dirs"
    ∷ join_with s.versions (codes ",")
    ∷ codes "--versioned-clientset-package"
    ∷ join (s.go_module ∷ codes "apis/generated/clientset/versioned" ∷ [])
    ∷ codes "--listers-package"
    ∷ join (s.go_module ∷ codes "apis/generated/listers" ∷ [])
    ∷ codes "--output-package"
    ∷ join (s.go_module ∷ codes "apis/generated/informers" ∷ [])
    ∷ []

module _ {W E : Type 0} (run : List Text → W → W × Option E) where
  -- One test of `doGen`: an error of the command returns.
  generated : Settings → Text → List Text → W × Option E → W × Option E
  generated s gen args (w, some e) = (w, some e)
  generated s gen args (w, none) =
      if contains s.generators gen then run (get_cmd s gen args) w else (w, none)

  -- `doGen`
  unfoldable pub do_gen : Settings → W → W × Option E
  unfolding generated deepcopy_args openapi_args client_args lister_args informer_args
  do_gen s w = generated s (codes "informer-gen") (informer_args s) (
      generated s (codes "lister-gen") (lister_args s) (
        generated s (codes "client-gen") (client_args s) (
          generated s (codes "openapi-gen") (openapi_args s)
            (generated s (codes "deepcopy-gen") (deepcopy_args s) (w, none)))))

-- `findModuleRoot`, on fuel: one turn for each directory.
unfoldable pub find_module_root : Files → ℕ → Text → Option Text
find_module_root disk zero d = none
find_module_root disk (suc n) d =
    let rest = find_module_root disk n (dir d) in
    if stat disk (join (d ∷ codes "go.mod" ∷ []))
    then some d
    else if dir d ≟ d
    then some []
    else rest
