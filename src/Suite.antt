-- ===== src/Suite.antt =====
-- The repository's own unit tests, run on the model.
pub mod Names
pub mod Readers
pub mod Files
pub mod Zones
pub mod Answers
pub mod Counters
pub mod Limits
pub mod Security
pub mod Denial
