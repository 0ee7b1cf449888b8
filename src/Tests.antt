-- ===== src/Tests.antt =====
-- The theorems at concrete inputs, one file per part of the program.
pub mod Protocol
pub mod Pool
pub mod Connection
pub mod Consumer
pub mod Session
pub mod Retry
pub mod Network
pub mod Locks
pub mod Cut
pub mod Producer
pub mod Sharing
pub mod Workers
pub mod Pooled
pub mod Registry
pub mod Order
