-- ===== src/JsonFile/Handlers/Updates.antt =====
-- pkg/filepath/jsonfile_rest.go: what `Update` writes is what `Get` reads.
use apiserver_runtime_exampl.Base.{Bool, true, false, Option, none, some}
use apiserver_runtime_exampl.Os.Files.{Files}

abbrev is_none {ℓ} : {A : Type ℓ} → Option A → Bool
is_none none = true
is_none (some a) = false
