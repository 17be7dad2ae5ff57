-- ===== src/Jit.antt =====
-- src/randomx/jit/aarch64.rs: the ARM64 instruction encoder of the JIT compiler. The registers of
-- `mod reg` are their numbers, which the methods take as arguments. A `debug_assert!` is not in a
-- release build, and is left out.
pub mod Emitter
pub mod Integer
pub mod Memory
pub mod Float
pub mod Moves
pub mod Fields
pub mod Offsets
pub mod Loads
pub mod Chunks
pub mod MovzChain
pub mod MovnChain
pub mod Immediates
mod Tests
