-- ===== src/Runtime.antt =====
-- The package runtime: what a program sees of the virtual machine that runs it.
pub mod ProgramError
pub mod MemoryMap
pub mod Tests
pub mod Account
pub mod Abi
