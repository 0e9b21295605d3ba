-- ===== src/Memory.antt =====
-- internal/memory: the memory budget, the footprint estimate, and the layout of a load.
pub mod Float
pub mod Estimate
pub mod Plan
