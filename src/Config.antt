-- ===== src/Config.antt =====
-- pkg/config: the REST storage of the `Config` resource.
pub mod Keys
pub mod Watchers
pub mod Rest
pub mod TargetWatcher
