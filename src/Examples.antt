-- ===== src/Examples.antt =====
-- The example programs of examples/ that have a logic of their own.
pub mod Workers
pub mod Pooled
