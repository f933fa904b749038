-- ===== src/Token.antt =====
-- The package sdk/token: the state of mints and token accounts (sdk/token/state.go).
pub mod State
pub mod RoundTrip
pub mod Accounts
pub mod Multisig
pub mod Tests
