-- ===== src/Config/Keys.antt =====
-- pkg/config/keys.go: the key of a config and of its target.
use apiserver_runtime_exampl.Base.{
  Bool, true, false, ◌||◌, Option, none, some, [], Text, codes, is_nil, if◌then◌else◌, Result, ok,
  err, Dict, lookup, text_eq,
}
use apiserver_runtime_exampl.Base.Fallible.{◌>>=◌}
use apiserver_runtime_exampl.Api.Config.{Config, Meta}
use apiserver_runtime_exampl.Store.Key.{Key}

-- `runtime.Object`: a config or an object of another type; all of them have metadata.
pub data Object : Type 0 where
  config : Config → Object
  other : Meta → Object

unfoldable pub meta_of : Object → Meta
meta_of (config c) = c.meta
meta_of (other m) = m

pub data KeyError : Type 0 where
  namespace_mismatch : Bool → Bool → KeyError
  target_required : Text → Text → KeyError

-- A request is the namespace that its context carries, if any; what `NamespaceFrom` returns of it.
abbrev pub namespace_from : Option Text → Text × Bool
namespace_from none = ([], false)
namespace_from (some ns) = (ns, true)

abbrev pub same_flag : Bool → Bool → Bool
same_flag true b = b
same_flag false true = false
same_flag false false = true

-- `getKey`, for a resource that is namespaced as `is_namespaced` says.
unfoldable pub get_key : Bool → Option Text → Text → Result KeyError Key
get_key is_namespaced ctx name =
    let (ns, namespaced) = namespace_from ctx in
    if same_flag namespaced is_namespaced
    then ok (record { namespace = ns; name = name })
    else err (namespace_mismatch namespaced is_namespaced)

-- A missing key of a Go map reads as the empty string.
abbrev pub label : Option Text → Text
label none = []
label (some v) = v

-- `getTargetKey`
unfoldable pub get_target_key : Dict Text Text → Result KeyError Key
get_target_key labels =
    let target_name = label (lookup (codes "targetName") labels) in
    let target_namespace = label (lookup (codes "targetNamespace") labels) in
    if is_nil target_name || is_nil target_namespace
    then err (target_required target_namespace target_name)
    else ok (record { namespace = target_namespace; name = target_name })

-- `getKeys`
unfoldable pub get_keys : Bool → Option Text → Object → Result KeyError (Key × Key)
unfolding meta_of get_key get_target_key
get_keys is_namespaced ctx obj = do
  key ← get_key is_namespaced ctx (meta_of obj).name
  target_key ← get_target_key (meta_of obj).labels
  ok (key, target_key)
