-- ===== src/Sdk/Pubkey.antt =====
-- sdk/pubkey.go: `Pubkey`, an array of 32 bytes.
use solanago.Base.{ℕ, List}

abbrev pub Pubkey : Type 0
Pubkey = List ℕ
