-- ===== src/Reconciler.antt =====
-- pkg/reconcilers/target/reconciler.go: targets, the data servers that they are assigned to, and
-- their data stores.
pub mod Servers
pub mod DataStore
pub mod Loop
pub mod Profiles
