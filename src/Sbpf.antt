-- ===== src/Sbpf.antt =====
-- The package sbpf: the instruction set, its validation, encoding and decoding.
pub mod Opcode
pub mod Instruction
pub mod Validate
pub mod Encode
pub mod Decode
pub mod Slot
pub mod Layout
pub mod Accepted
pub mod RoundTrip
pub mod Targets
pub mod Syscall
pub mod Tests
