-- ===== src/Store/Key.antt =====
-- pkg/store/key.go: an object's key is its namespace and name.
pub mod Injective
use apiserver_runtime_exampl.Base.{
  ℕ, Text, codes, List, [], ◌∷◌, ◌++◌, if◌then◌else◌, is_nil, Eq, text_eq, Text-discrete,
}

-- `Key` embeds the namespaced name of the Kubernetes types.
pub record Key : Type 0 where
  pub namespace : Text
  pub name : Text

unfoldable pub Key-discrete : Discrete Key
Key-discrete = hlevel Text-discrete

instance unfoldable pub key_eq : Eq Key
unfolding Key-discrete
key_eq = record { dec = Key-discrete }

-- `Key.String`
unfoldable pub key_string : Key → Text
key_string r = if is_nil r.namespace then r.name else r.namespace ++ b'.' ∷ r.name

unfoldable pub get_nsn_key : Key → Key
get_nsn_key nsn = nsn

unfoldable pub get_name_key : Text → Key
get_name_key name = record { namespace = []; name = name }
