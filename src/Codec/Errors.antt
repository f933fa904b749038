-- ===== src/Codec/Errors.antt =====
-- The sentinel errors of serialization/codec.go, whose messages are left out. `custom` is an error
-- that a caller's own function returned.
use solanago.Base.{ℕ}

pub data Error : Type 0 where
  invalid_bool invalid_option length_exceeded trailing_data unexpected_end invalid_argument : Error
  custom : ℕ → Error
