-- ===== src/Base/Int.antt =====
-- Go's signed integers: an integer, read from and written to the two's complement words.
use Prim.Native.Nat.{ℕ, suc, ◌+◌, ◌-◌, ◌%◌, ◌^◌, ◌≤◌, ◌<◌}
use mathlib.Core.Path.{◌≡◌}
use mathlib.Core.Bool.{Bool, false}
use native.Mathlib.Omega.{arith}
use solanago.Base.Tests.{ltb, leb, ◌==◌, if◌then◌else◌}

-- `negsuc n` is -(n + 1).
pub data ℤ : Type 0 where
  pos : ℕ → ℤ
  negsuc : ℕ → ℤ

abbrev pub pos_part : ℤ → ℕ
pos_part (pos n) = n
pos_part (negsuc n) = 0

abbrev pub neg_part : ℤ → ℕ
neg_part (pos n) = 0
neg_part (negsuc n) = suc n

-- a - b, as an integer.
abbrev pub sub_ℕ : ℕ → ℕ → ℤ
sub_ℕ a b = if leb b a then pos (a - b) else negsuc (b - a - 1)

infixl 65 ◌+ℤ◌
abbrev pub ◌+ℤ◌ : ℤ → ℤ → ℤ
a +ℤ b = sub_ℕ (pos_part a + pos_part b) (neg_part a + neg_part b)

abbrev pub ltb_ℤ : ℤ → ℤ → Bool
ltb_ℤ a b = ltb (pos_part a + neg_part b) (pos_part b + neg_part a)

abbrev pub leb_ℤ : ℤ → ℤ → Bool
leb_ℤ a b = leb (pos_part a + neg_part b) (pos_part b + neg_part a)

abbrev pub is_zero : ℤ → Bool
is_zero (pos n) = n == 0
is_zero (negsuc n) = false

-- The conversions to unsigned words: `uint16(x)`, `uint32(x)`, `uint64(x)`.
abbrev pub to_u16 : ℤ → ℕ
to_u16 (pos n) = n % 2 ^ 16
to_u16 (negsuc n) = 2 ^ 16 - 1 - n % 2 ^ 16

abbrev pub to_u32 : ℤ → ℕ
to_u32 (pos n) = n % 2 ^ 32
to_u32 (negsuc n) = 2 ^ 32 - 1 - n % 2 ^ 32

abbrev pub to_u64 : ℤ → ℕ
to_u64 (pos n) = n % 2 ^ 64
to_u64 (negsuc n) = 2 ^ 64 - 1 - n % 2 ^ 64

-- The conversions of unsigned words of the same width: `int16(w)`, `int32(w)`, `int64(w)`.
abbrev pub of_u16 : ℕ → ℤ
of_u16 w = if ltb w (2 ^ 15) then pos w else negsuc (2 ^ 16 - 1 - w)

abbrev pub of_u32 : ℕ → ℤ
of_u32 w = if ltb w (2 ^ 31) then pos w else negsuc (2 ^ 32 - 1 - w)

abbrev pub of_u64 : ℕ → ℤ
of_u64 w = if ltb w (2 ^ 63) then pos w else negsuc (2 ^ 64 - 1 - w)

-- The values of Go's int16, int32 and int64.
abbrev pub IsInt16 : ℤ → Type 0
IsInt16 a = (pos_part a < 2 ^ 15) × (neg_part a ≤ 2 ^ 15)

abbrev pub IsInt32 : ℤ → Type 0
IsInt32 a = (pos_part a < 2 ^ 31) × (neg_part a ≤ 2 ^ 31)

abbrev pub IsInt64 : ℤ → Type 0
IsInt64 a = (pos_part a < 2 ^ 63) × (neg_part a ≤ 2 ^ 63)

pub of_u16-to_u16 : (a : ℤ) → IsInt16 a → of_u16 (to_u16 a) ≡ a
of_u16-to_u16 a h = ground arith

pub of_u32-to_u32 : (a : ℤ) → IsInt32 a → of_u32 (to_u32 a) ≡ a
of_u32-to_u32 a h = ground arith

pub of_u64-to_u64 : (a : ℤ) → IsInt64 a → of_u64 (to_u64 a) ≡ a
of_u64-to_u64 a h = ground arith

pub to_u16-of_u16 : (w : ℕ) → w < 2 ^ 16 → to_u16 (of_u16 w) ≡ w
to_u16-of_u16 w h = ground arith

pub to_u32-of_u32 : (w : ℕ) → w < 2 ^ 32 → to_u32 (of_u32 w) ≡ w
to_u32-of_u32 w h = ground arith

pub to_u64-of_u64 : (w : ℕ) → w < 2 ^ 64 → to_u64 (of_u64 w) ≡ w
to_u64-of_u64 w h = ground arith

pub of_u16-IsInt16 : (w : ℕ) → w < 2 ^ 16 → IsInt16 (of_u16 w)
of_u16-IsInt16 w h = ground arith

pub of_u32-IsInt32 : (w : ℕ) → w < 2 ^ 32 → IsInt32 (of_u32 w)
of_u32-IsInt32 w h = ground arith

pub of_u64-IsInt64 : (w : ℕ) → w < 2 ^ 64 → IsInt64 (of_u64 w)
of_u64-IsInt64 w h = ground arith

pub to_u32-lt : (a : ℤ) → to_u32 a < 2 ^ 32
to_u32-lt a = ground arith

pub to_u64-lt : (a : ℤ) → to_u64 a < 2 ^ 64
to_u64-lt a = ground arith
