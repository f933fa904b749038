-- ===== src/Elf.antt =====
-- The package elf: the container of a program (elf/elf.go).
pub mod Format
pub mod Labels
pub mod Parse
pub mod Build
pub mod Image
pub mod Blocks
pub mod Layout
pub mod Written
pub mod Reads
pub mod Accepts
pub mod RoundTrip
pub mod Tests
