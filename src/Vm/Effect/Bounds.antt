-- ===== src/Vm/Effect/Bounds.antt =====
-- The words and the faults that the cases of `execute` can produce.
use solanago.Base.{ℕ, ◌/◌, ◌^◌, ◌≤◌, ◌<◌, ◌≡◌, refl, bit_and, Option, none, some, arith}
use solanago.Base.Bits.{bit_xor-lt}
use solanago.Base.Int.{ℤ, to_u32, to_u64, to_u32-lt, to_u64-lt, of_u32, of_u64}
use solanago.Sbpf.Opcode.{
  Opcode, mov32_imm, ld_dw_imm, xor32_imm, xor32_reg, arsh32_imm, arsh32_reg,
}
use solanago.Sbpf.Opcode.{xor64_imm, xor64_reg, arsh64_imm, arsh64_reg, rsh64_imm, rsh64_reg}
use solanago.Sbpf.Opcode.{rsh32_imm, rsh32_reg}
use solanago.Vm.Errors.{division_by_zero}
use solanago.Vm.Effect.{Effect, assign, branch, fault, u32, i32, shift_right, sign_extend32}
use solanago.Vm.Effect.{alu32, alu64, jump32, jump64, effect, or_else}
use solanago.Base.{◌&&◌, not, true, false}
use solanago.Sbpf.Opcode.{same, byte_of, ja, call_imm, exit, mov64_imm}
use solanago.Sbpf.Opcode.Names.{is_valid, opcode_name}
use solanago.Sbpf.Opcode.Classes.{is_memory_load, is_memory_store, is_jump, is_jump_immediate}
use solanago.Sbpf.Opcode.Classes.{is_jump_register}

-- A register is set to a word, and a fault is a division by zero.
abbrev pub IsBounded : Option Effect → Type 0
IsBounded none = Unit
IsBounded (some (assign value)) = value < 2 ^ 64
IsBounded (some (branch taken)) = Unit
IsBounded (some (fault e)) = e ≡ division_by_zero

sign_extend32-lt : (value : ℕ) → sign_extend32 value < 2 ^ 64
unfolding sign_extend32
sign_extend32-lt value = to_u64-lt (of_u32 value)

div-le : (a b : ℕ) → a / b ≤ a
div-le a b = omega arith

alu32-IsBounded : (op : Opcode) (dst src : ℕ) (imm : ℤ) → IsBounded (alu32 op dst src imm)
unfolding alu32
alu32-IsBounded mov32_imm dst src imm = omega (arith, to_u32-lt imm)
alu32-IsBounded xor32_imm dst src imm =
    omega (arith, bit_xor-lt 32 (u32 dst) (to_u32 imm) (omega arith) (to_u32-lt imm))
alu32-IsBounded xor32_reg dst src imm =
    omega (arith, bit_xor-lt 32 (u32 dst) (u32 src) (omega arith) (omega arith))
alu32-IsBounded arsh32_imm dst src imm =
    omega (arith, to_u32-lt (shift_right (i32 dst) (to_u32 imm)))
alu32-IsBounded arsh32_reg dst src imm =
    omega (arith, to_u32-lt (shift_right (i32 dst) (bit_and (u32 src) 31)))
alu32-IsBounded rsh32_imm dst src imm = omega (arith, div-le (u32 dst) (2 ^ to_u32 imm))
alu32-IsBounded rsh32_reg dst src imm = omega (arith, div-le (u32 dst) (2 ^ bit_and (u32 src) 31))
alu32-IsBounded _ dst src imm = grind (arith, sign_extend32-lt)

alu64-IsBounded :
    (op : Opcode) (dst src : ℕ) (imm : ℤ)
    → dst < 2 ^ 64
    → src < 2 ^ 64
    → IsBounded (alu64 op dst src imm)
unfolding alu64
alu64-IsBounded ld_dw_imm dst src imm hd hs = to_u64-lt imm
alu64-IsBounded xor64_imm dst src imm hd hs = bit_xor-lt 64 dst (to_u64 imm) hd (to_u64-lt imm)
alu64-IsBounded xor64_reg dst src imm hd hs = bit_xor-lt 64 dst src hd hs
alu64-IsBounded arsh64_imm dst src imm hd hs = to_u64-lt (shift_right (of_u64 dst) (to_u32 imm))
alu64-IsBounded arsh64_reg dst src imm hd hs =
    to_u64-lt (shift_right (of_u64 dst) (bit_and (u32 src) 63))
alu64-IsBounded rsh64_imm dst src imm hd hs = omega (arith, div-le dst (2 ^ to_u32 imm))
alu64-IsBounded rsh64_reg dst src imm hd hs = omega (arith, div-le dst (2 ^ bit_and (u32 src) 63))
alu64-IsBounded mov64_imm dst src imm hd hs = to_u64-lt imm
alu64-IsBounded _ dst src imm hd hs = ground arith

jump32-IsBounded : (op : Opcode) (dst src : ℕ) (imm : ℤ) → IsBounded (jump32 op dst src imm)
unfolding jump32
jump32-IsBounded ld_dw_imm dst src imm = tt
jump32-IsBounded _ dst src imm = tt

jump64-IsBounded : (op : Opcode) (dst src : ℕ) (imm : ℤ) → IsBounded (jump64 op dst src imm)
unfolding jump64
jump64-IsBounded ld_dw_imm dst src imm = tt
jump64-IsBounded _ dst src imm = tt

or_else-IsBounded : (e f : Option Effect) → IsBounded e → IsBounded f → IsBounded (or_else e f)
unfolding or_else
or_else-IsBounded none f h k = k
or_else-IsBounded (some e) f h k = h

-- On 64-bit words, a case of arithmetic or of a jump gives a 64-bit word, a jump or not, or the error
-- of a division by zero, for every operation and immediate that it has a case for.
pub effect-IsBounded :
    (op : Opcode) (dst src : ℕ) (imm : ℤ)
    → dst < 2 ^ 64
    → src < 2 ^ 64
    → IsBounded (effect op dst src imm)
unfolding effect
effect-IsBounded op dst src imm hd hs = or_else-IsBounded _ _ (alu32-IsBounded op dst src imm) (
    or_else-IsBounded _ _ (alu64-IsBounded op dst src imm hd hs)
      (or_else-IsBounded _ _ (jump32-IsBounded op dst src imm) (jump64-IsBounded op dst src imm)))

-- What the cases say of the operation: a branch is a jump, and JA is taken; EXIT, a call, a memory
-- access and an unknown operation have no case here, and every other operation has one.
abbrev pub FitsOpcode : Opcode → Option Effect → Type 0
FitsOpcode op none =
    is_valid op
      && not (is_memory_load op)
      && not (is_memory_store op)
      && not (same op call_imm)
      && not (same op exit)
    ≡ false
FitsOpcode op (some (assign value)) = same op ja ≡ false
FitsOpcode op (some (branch taken)) = (is_jump op ≡ true) × (same op ja ≡ true → taken ≡ true)
FitsOpcode op (some (fault e)) = Unit

-- An operation without a case is invalid, a memory access, a call or EXIT; an operation that sets a
-- register is not JA; one that jumps or not is a jump, and JA always jumps.
pub effect-FitsOpcode :
    (op : Opcode) (dst src : ℕ) (imm : ℤ) → FitsOpcode op (effect op dst src imm)
unfolding effect alu32 alu64 jump32 jump64 is_valid opcode_name is_memory_load is_memory_store same
    byte_of is_jump is_jump_immediate is_jump_register
effect-FitsOpcode ld_dw_imm dst src imm = refl
effect-FitsOpcode _ dst src imm = ground arith
