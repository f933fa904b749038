-- ===== src/Vm.antt =====
-- The package vm: the reference interpreter.
pub mod Errors
pub mod Memory
pub mod Effect
pub mod Machine
pub mod Step
pub mod Run
pub mod Program
pub mod Termination
pub mod Sound
pub mod Tests
pub mod Examples
