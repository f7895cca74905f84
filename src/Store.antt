-- ===== src/Store.antt =====
-- pkg/store: the keys, the storage interface with its contract, and the implementations.
pub mod Key
pub mod Contract
pub mod Memory
pub mod File
pub mod Agreement
mod Tests
