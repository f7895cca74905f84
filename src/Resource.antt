-- ===== src/Resource.antt =====
-- pkg/reconcilers/resource: what the reconcilers share.
pub mod Finalizer
