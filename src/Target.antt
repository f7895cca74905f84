-- ===== src/Target.antt =====
-- pkg/target: xpaths, and the context of a target that talks to its data server.
pub mod Path
pub mod Strings
pub mod Context
