-- ===== src/Engine.antt =====
-- internal/engine: routing, names, labels, appliers, readers and the loop over the nodes.
pub mod Route
pub mod Naming
pub mod Labels
pub mod Apply
pub mod Graph
pub mod Loop
