-- ===== src/Os.antt =====
-- Go's `os` and `path/filepath` as the source uses them: paths, and a tree of files. Writes fail where
-- the directory is missing; that a disk fails or is full is left out.
pub mod Paths
pub mod Files
