-- ===== src/Target/Path/Origin.antt =====
-- Paths with an origin, printed by `ToXPath` and read by `ParsePath`.
use apiserver_runtime_exampl.Base.{◌≢◌, Text, All}

abbrev pub HasNoColon : Text → Type 0
HasNoColon = All (λ c. c ≢ b':')
