-- ===== src/Examples.antt =====
-- The theorems at concrete inputs, and tests of the definitions.
mod Governor
mod Memory
mod Live
mod Engine
mod Scaling
mod Telemetry
mod Events
mod Assign
mod Models
mod Decision
mod Admission
mod Gguf
