-- ===== src/Tests.antt =====
-- The properties at concrete inputs: clusters held in memory, a small runtime, sample objects.
pub mod Memory
pub mod Sample
mod Engine
mod Controller
mod Reconcile
mod Owned
mod Registrar
pub mod Workspace
mod Supervisor
mod Kcp
mod Guarded
pub mod Process
mod Platform
mod Registered
pub mod Server
mod Passes
