-- ===== src/Vm/Effect/Alu32.antt =====
-- The 32-bit arithmetic of `execute`; `none` is an operation of another file.
use solanago.Base.{ℕ, ◌+◌, ◌-◌, ◌*◌, ◌/◌, ◌%◌, ◌^◌, bit_and, bit_xor, Option, none, some}
use solanago.Base.Int.{ℤ, to_u32}
use solanago.Sbpf.Opcode.{Opcode, add32_imm, add32_reg, sub32_imm, sub32_reg, mul32_imm}
use solanago.Sbpf.Opcode.{mul32_reg, div32_imm, div32_reg, lsh32_imm, lsh32_reg, rsh32_imm}
use solanago.Sbpf.Opcode.{rsh32_reg, neg32, mod32_imm, mod32_reg, xor32_imm, xor32_reg}
use solanago.Sbpf.Opcode.{mov32_imm, mov32_reg, arsh32_imm, arsh32_reg}
use solanago.Vm.Effect.Words.{Effect, assign, u32, i32, sign_extend32, shift_right, checked}

unfoldable pub alu32 : Opcode → ℕ → ℕ → ℤ → Option Effect
alu32 mov32_imm dst src imm = some (assign (to_u32 imm))
alu32 mov32_reg dst src imm = some (assign (u32 src))
alu32 add32_imm dst src imm = some (assign (sign_extend32 ((u32 dst + to_u32 imm) % 2 ^ 32)))
alu32 add32_reg dst src imm = some (assign (sign_extend32 ((u32 dst + u32 src) % 2 ^ 32)))
alu32 sub32_imm dst src imm =
    some (assign (sign_extend32 ((u32 dst + 2 ^ 32 - to_u32 imm) % 2 ^ 32)))
alu32 sub32_reg dst src imm = some (assign (sign_extend32 ((u32 dst + 2 ^ 32 - u32 src) % 2 ^ 32)))
alu32 mul32_imm dst src imm = some (assign (sign_extend32 ((u32 dst * to_u32 imm) % 2 ^ 32)))
alu32 mul32_reg dst src imm = some (assign (sign_extend32 ((u32 dst * u32 src) % 2 ^ 32)))
alu32 div32_imm dst src imm = checked (to_u32 imm) (u32 dst / to_u32 imm)
alu32 div32_reg dst src imm = checked (u32 src) (u32 dst / u32 src)
alu32 mod32_imm dst src imm = checked (to_u32 imm) (u32 dst % to_u32 imm)
alu32 mod32_reg dst src imm = checked (u32 src) (u32 dst % u32 src)
alu32 lsh32_imm dst src imm = some (assign (u32 dst * 2 ^ to_u32 imm % 2 ^ 32))
alu32 lsh32_reg dst src imm = some (assign (u32 dst * 2 ^ bit_and (u32 src) 31 % 2 ^ 32))
alu32 rsh32_imm dst src imm = some (assign (u32 dst / 2 ^ to_u32 imm))
alu32 rsh32_reg dst src imm = some (assign (u32 dst / 2 ^ bit_and (u32 src) 31))
alu32 arsh32_imm dst src imm = some (assign (to_u32 (shift_right (i32 dst) (to_u32 imm))))
alu32 arsh32_reg dst src imm = some (assign (to_u32 (shift_right (i32 dst) (bit_and (u32 src) 31))))
alu32 neg32 dst src imm = some (assign ((2 ^ 32 - u32 dst) % 2 ^ 32))
alu32 xor32_imm dst src imm = some (assign (bit_xor (u32 dst) (to_u32 imm)))
alu32 xor32_reg dst src imm = some (assign (bit_xor (u32 dst) (u32 src)))
alu32 _ dst src imm = none
