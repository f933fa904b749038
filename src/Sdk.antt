-- ===== src/Sdk.antt =====
-- The package sdk: the values that its packages share.
pub mod Pubkey
