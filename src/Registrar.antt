-- ===== src/Registrar.antt =====
-- internal/registrar: the publication of a blueprint.
pub mod Order
pub mod Cache
pub mod Claims
pub mod Publish
pub mod Reconcile
