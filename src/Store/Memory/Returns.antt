-- ===== src/Store/Memory/Returns.antt =====
-- When the calls of the store in memory return.
use apiserver_runtime_exampl.Base.{nat_eq}
use apiserver_runtime_exampl.Store.Key.{Key, key_eq}
