-- ===== src/Governor.antt =====
-- internal/governor: the resource-governance policy engine.
pub mod Window
pub mod Policy
pub mod Core
pub mod World
pub mod Decision
pub mod Parse
pub mod Broadcast
