-- ===== src/Miner.antt =====
-- src/miner.rs: the shares a worker thread finds and submits.
pub mod Shares
pub mod Verifier
pub mod Worker
pub mod Target
pub mod Pipeline
pub mod Hashing
pub mod Reference
mod Tests
