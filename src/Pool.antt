-- ===== src/Pool.antt =====
-- src/pool_connection.rs: the session with the pool. `State` has the connection and its parts,
-- `Framing` the lines of the protocol, `Jobs` the jobs and targets, `Submit` the submission path,
-- `Messages` the pool's messages, `Receiver` the loop of the receiver thread, `Session` connecting and logging in, `Rotation` the donation gate,
-- `System` the interleavings of these, and `Ledger` what the share counters add up to.
pub mod State
pub mod Framing
pub mod Json
pub mod Jobs
pub mod Submit
pub mod Session
pub mod Rotation
pub mod Messages
pub mod Receiver
pub mod System
pub mod Ledger
mod Tests
