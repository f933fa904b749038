-- ===== src/Codec.antt =====
-- The package serialization: sized fields, little-endian, in a byte stream.
pub mod Errors
pub mod Encoder
pub mod Decoder
pub mod RoundTrip
pub mod Tests
