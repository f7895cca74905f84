-- ===== src/Store/File/Calls/Refines.antt =====
-- The store in files against the contract of `Storer`.
use apiserver_runtime_exampl.Base.{text_eq}
use apiserver_runtime_exampl.Store.Key.{Key, key_eq}
use apiserver_runtime_exampl.Store.Contract
use apiserver_runtime_exampl.Store.Contract.{StoreError, View, Reply, put}
use apiserver_runtime_exampl.Store.File.{File}
