-- ===== src/RandomX.antt =====
-- The RandomX virtual machine (src/randomx): compilation of programs to bytecode and its execution.
pub mod Instruction
pub mod Reciprocal
pub mod Compile
pub mod Machine
pub mod Execute
pub mod Quotients
pub mod Condition
pub mod Safety
pub mod Arms
pub mod Steps
pub mod Operands
pub mod LastWrite
pub mod Turns
pub mod Targets
pub mod Program
pub mod Visits
pub mod Runs
pub mod Revisits
pub mod Termination
pub mod Linked
pub mod Tests
pub mod Params
pub mod Vm
pub mod Blake2b
pub mod Aes
pub mod Hasher
pub mod Generator
pub mod Superscalar
pub mod Dataset
