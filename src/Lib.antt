-- ===== src/Lib.antt =====
-- Verification of apiserver-runtime-example: an aggregated API server that keeps configs for network
-- devices, and a controller that connects its targets to data servers.
--
-- The program's parts and the files that model them (a file's children hold its proofs):
--
--   Store/Key, Store/Contract, Store/Memory   pkg/store/key.go, store.go, memory/memory.go. A store
--       in memory is a map and a registry of watchers. Contract states what a `Storer` promises on the
--       abstract view of a store, a function from keys to objects; Memory is the code.
--       `run_call` is Create, Update and Delete, `watch` is Watch.
--   Store/File                                pkg/store/file. The store in files: File holds the paths,
--       the reading and the writing, and List; Calls holds Create, Update, Delete and Watch, and sets
--       them against Contract. Store/Agreement compares the two stores.
--   JsonFile                                  pkg/filepath/jsonfile_rest.go. The REST storage in JSON
--       files: Handlers holds Create, Update and Delete, Watching holds List, DeleteCollection, Watch
--       and Stop.
--   Os                                        Go's `path/filepath` and `os`, as these parts use them: a
--       tree of files by their clean paths. `walk` visits names in lexical order, as Go's does.
--   Watch, Watch/IdAllocator, Watch/Watchers  pkg/store/watch. A registry hands out ids and keeps a
--       channel for each watcher. Channels (Channel) are bounded buffers in a heap, since a client
--       keeps the reference of a channel that the registry has dropped. A send to a full channel is
--       the outcome `blocked`, a send to or a close of a closed one is `panicked`.
--   Target/Path, Target/Strings               pkg/target/util.go. ParsePath and what prints paths.
--       A text is the list of its code points. The loops are structural, on the rest of the text.
--   Target/Context                            pkg/target/context.go. SetIntent and DeleteIntent send
--       one request to the data server of a target; its client is a parameter.
--   Config/Keys, Config/Watchers, Config/Rest pkg/config. The handlers of the REST storage of configs:
--       each reads the request's key, asks the target's context to change the device, then the store,
--       then tells the watchers. Config/Rest holds Get, List, DeleteCollection and Watch, and
--       Config/Rest/Write holds Create, Update and Delete. Config/TargetWatcher is the goroutine
--       of watcher.go that watches the targets, as a step relation.
--   Resource/Finalizer                        pkg/reconcilers/resource. Finalizers, on a model of the Go
--       slice that RemoveFinalizer overwrites while it ranges over it.
--   Api/Condition, Api/Config, Api/Target     apis/inv/v1alpha1 and apis/config/v1alpha1: conditions, and
--       the fields of the resources that the program reads.
--   Reconciler/Servers, Reconciler/DataStore  pkg/reconcilers/target/reconciler.go. Which data server a
--       target is assigned to, and how its data store is made and compared.
--   Reconciler/Loop, Reconciler/Profiles      pkg/reconcilers/target. Reconcile, which puts the parts
--       above together, and the handlers that queue the targets of a profile that changed.
--   DataServer                                pkg/dataserver/client/client.go. The client's life.
--   Generator                                 tools/apiserver-runtime-gen/main.go. The tool that runs the
--       code generators: its commands, and its searches for the module's root and the versions' base.
--       `find_module_root` runs on fuel, one turn for each component of the path and one for the root.
--
-- Base holds what these share: tests on numbers, equality as an instance, lists, association lists
-- for Go's maps (their order of iteration is the list's), results and outcomes, and Go's strings.
--
-- A locked section of the code is one step here, and handlers run one after another; what overlapping
-- calls do is not modelled. A Go int is a natural number: ids and lengths stay far below 2^63. The
-- loops end by structural recursion; `remove_loop` counts down the length that Go's range fixes, and
-- `fill` the number of ids. Log lines are left out, but where one of them indexes a slice the panic
-- is kept. Parameters stand for what is not in the repository: the data server's client, the
-- Kubernetes client, the work queue, the codecs, type assertions to a type parameter, reflection on
-- lists, gRPC, reflect.DeepEqual, sets of names, the time and new UUIDs. A write of a file fails
-- where its directory is missing or a directory has its name; that a disk is full, or that a file
-- may not be read, is not modelled.
--
-- Not modelled: the registration of the controllers and of the resources, the start of the programs,
-- and generated code; pkg/config/id_allocator.go and apis/config/v1alpha1/condition.go, which repeat
-- files that are modelled.
pub mod Base
pub mod Channel
pub mod Os
pub mod Generator
pub mod Watch
pub mod Store
pub mod JsonFile
pub mod Target
pub mod Resource
pub mod Api
pub mod Config
pub mod DataServer
pub mod Reconciler
