-- ===== src/Store/File/Calls/Returning.antt =====
-- pkg/store/file/file.go: when the calls of the store in files return.
use apiserver_runtime_exampl.Base.{nat_eq}
use apiserver_runtime_exampl.Os.Files.{Files}
use apiserver_runtime_exampl.Store.Key.{Key}
use apiserver_runtime_exampl.Store.Contract
use apiserver_runtime_exampl.Store.File.{File}
