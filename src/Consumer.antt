-- ===== src/Consumer.antt =====
-- The consumer of src/consumer.rs: the names it accepts and the task it runs for each message.
pub mod Names
pub mod Task
pub mod Session
pub mod Jitter
pub mod Retry
pub mod Registry
