-- ===== src/Controller.antt =====
-- controllers: the reconciler of Backstage resources.
pub mod Exec
pub mod Requests
pub mod Preprocess
pub mod Apply
pub mod Clean
pub mod Reconcile
