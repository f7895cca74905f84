-- ===== src/Store/Agreement.antt =====
-- pkg/store: the store in memory and the store in files behave alike.
use apiserver_runtime_exampl.Base.{◌≡◌}
use apiserver_runtime_exampl.Store.Key.{Key, key_eq}
use apiserver_runtime_exampl.Store.Contract.{View, Reply}
use apiserver_runtime_exampl.Store.Memory
use apiserver_runtime_exampl.Store.File.{File}
use apiserver_runtime_exampl.Store.File.Names.{IsFileKey}
use apiserver_runtime_exampl.Store.File.Calls

module _ {ℓ} {T : Type ℓ} where
  -- Two views are the same on the keys that name files.
  abbrev pub SameView : View T → View T → Type ℓ
  SameView s t = (j : Key) → IsFileKey j → s j ≡ t j

  abbrev SameReply : Reply T → Reply T → Type ℓ
  SameReply p q = SameView p.state q.state × (p.result ≡ q.result)
