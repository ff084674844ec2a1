-- ===== src/Controller.antt =====
-- internal/controller: the reconciler of one instance, and the sweeper of orphans.
pub mod Deletion
pub mod Tokens
pub mod Config
pub mod Children
pub mod Liveness
pub mod Conditions
pub mod Reconcile
pub mod Sweeper
