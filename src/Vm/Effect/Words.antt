-- ===== src/Vm/Effect/Words.antt =====
-- The words of `execute`: conversions, shifts and `signExtend32`; and what a case asks for.
use solanago.Base.{ℕ, ◌/◌, ◌%◌, ◌^◌, Bool, Option, some, ◌==◌, if◌then◌else◌}
use solanago.Base.Int.{ℤ, pos, negsuc, ◌+ℤ◌, to_u64, of_u32, of_u64}
use solanago.Vm.Errors.{Error, division_by_zero}

-- `assign` sets the destination register, `branch true` takes the jump, `fault` returns an error.
pub data Effect : Type 0 where
  assign : ℕ → Effect
  branch : Bool → Effect
  fault : Error → Effect

-- `uint32(x)` and `uint64(x)` of a number.
abbrev pub u32 : ℕ → ℕ
u32 x = x % 2 ^ 32

abbrev pub u64 : ℕ → ℕ
u64 x = x % 2 ^ 64

-- `int32(x)` of a uint64.
abbrev pub i32 : ℕ → ℤ
i32 x = of_u32 (x % 2 ^ 32)

-- `signExtend32`.
unfoldable pub sign_extend32 : ℕ → ℕ
sign_extend32 value = to_u64 (of_u32 value)

-- `addSignedOffset`.
unfoldable pub add_signed_offset : ℕ → ℤ → ℕ
add_signed_offset base offset = to_u64 (of_u64 base +ℤ offset)

-- `>>` on a signed integer rounds down.
abbrev pub shift_right : ℤ → ℕ → ℤ
shift_right (pos n) k = pos (n / 2 ^ k)
shift_right (negsuc n) k = negsuc (n / 2 ^ k)

-- `if divisor == 0 { return ErrDivisionByZero }`.
abbrev pub checked : ℕ → ℕ → Option Effect
checked divisor value = if divisor == 0 then some (fault division_by_zero) else some (assign value)
