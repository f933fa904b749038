-- ===== src/Vm/Effect/Alu64.antt =====
-- The moves, LD_DW_IMM and the 64-bit arithmetic of `execute`.
use solanago.Base.{ℕ, ◌+◌, ◌-◌, ◌*◌, ◌/◌, ◌%◌, ◌^◌, bit_and, bit_xor, Option, none, some}
use solanago.Base.Int.{ℤ, to_u32, to_u64, of_u64}
use solanago.Sbpf.Opcode.{Opcode, ld_dw_imm, add64_imm, add64_reg, sub64_imm, sub64_reg}
use solanago.Sbpf.Opcode.{mul64_imm, mul64_reg, div64_imm, div64_reg, lsh64_imm, lsh64_reg}
use solanago.Sbpf.Opcode.{rsh64_imm, rsh64_reg, neg64, mod64_imm, mod64_reg, xor64_imm}
use solanago.Sbpf.Opcode.{xor64_reg, mov64_imm, mov64_reg, arsh64_imm, arsh64_reg}
use solanago.Vm.Effect.Words.{Effect, assign, u32, shift_right, checked}

unfoldable pub alu64 : Opcode → ℕ → ℕ → ℤ → Option Effect
alu64 ld_dw_imm dst src imm = some (assign (to_u64 imm))
alu64 mov64_imm dst src imm = some (assign (to_u64 imm))
alu64 mov64_reg dst src imm = some (assign src)
alu64 add64_imm dst src imm = some (assign ((dst + to_u64 imm) % 2 ^ 64))
alu64 add64_reg dst src imm = some (assign ((dst + src) % 2 ^ 64))
alu64 sub64_imm dst src imm = some (assign ((dst + 2 ^ 64 - to_u64 imm) % 2 ^ 64))
alu64 sub64_reg dst src imm = some (assign ((dst + 2 ^ 64 - src) % 2 ^ 64))
alu64 mul64_imm dst src imm = some (assign (dst * to_u64 imm % 2 ^ 64))
alu64 mul64_reg dst src imm = some (assign (dst * src % 2 ^ 64))
alu64 div64_imm dst src imm = checked (to_u64 imm) (dst / to_u64 imm)
alu64 div64_reg dst src imm = checked src (dst / src)
alu64 mod64_imm dst src imm = checked (to_u64 imm) (dst % to_u64 imm)
alu64 mod64_reg dst src imm = checked src (dst % src)
alu64 lsh64_imm dst src imm = some (assign (dst * 2 ^ to_u32 imm % 2 ^ 64))
alu64 lsh64_reg dst src imm = some (assign (dst * 2 ^ bit_and (u32 src) 63 % 2 ^ 64))
alu64 rsh64_imm dst src imm = some (assign (dst / 2 ^ to_u32 imm))
alu64 rsh64_reg dst src imm = some (assign (dst / 2 ^ bit_and (u32 src) 63))
alu64 arsh64_imm dst src imm = some (assign (to_u64 (shift_right (of_u64 dst) (to_u32 imm))))
alu64 arsh64_reg dst src imm =
    some (assign (to_u64 (shift_right (of_u64 dst) (bit_and (u32 src) 63))))
alu64 neg64 dst src imm = some (assign ((2 ^ 64 - dst) % 2 ^ 64))
alu64 xor64_imm dst src imm = some (assign (bit_xor dst (to_u64 imm)))
alu64 xor64_reg dst src imm = some (assign (bit_xor dst src))
alu64 _ dst src imm = none
