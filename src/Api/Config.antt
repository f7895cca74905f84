-- ===== src/Api/Config.antt =====
-- apis/config/v1alpha1/config_types.go: the `Config` resource.
use apiserver_runtime_exampl.Base.{ℕ, List, Text, Dict}
use apiserver_runtime_exampl.Api.Condition.{Condition}

-- The numbers of Go's signed types.
pub data ℤ : Type 0 where
  pos negsuc : ℕ → ℤ

-- `metav1.ObjectMeta` and `metav1.TypeMeta`, as far as the program reads them.
pub record Meta : Type 0 where
  pub api_version : Text
  pub kind : Text
  pub namespace : Text
  pub name : Text
  pub uid : Text
  pub labels : Dict Text Text

-- lifecycle_types.go
pub record Lifecycle : Type 0 where
  pub deletion_policy : Text

pub record ConfigBlob : Type 0 where
  pub path : Text
  pub value : Text

pub record ConfigSpec : Type 0 where
  pub lifecycle : Lifecycle
  pub priority : ℤ
  pub config : List ConfigBlob

-- `Config`; the times of its conditions are numbers.
pub record Config : Type 0 where
  pub meta : Meta
  pub spec : ConfigSpec
  pub status : List (Condition ℕ)
