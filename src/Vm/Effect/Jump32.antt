-- ===== src/Vm/Effect/Jump32.antt =====
-- The 32-bit conditional jumps of `execute`.
use solanago.Base.{ℕ, not, Option, none, some}
use solanago.Base.{ltb, leb, ◌==◌}
use solanago.Base.Int.{ℤ, to_u32, of_u32, ltb_ℤ, leb_ℤ}
use solanago.Sbpf.Opcode.{Opcode, jeq32_imm, jeq32_reg, jgt32_imm, jgt32_reg, jge32_imm}
use solanago.Sbpf.Opcode.{jge32_reg, jne32_imm, jne32_reg, jsgt32_imm, jsgt32_reg, jsge32_imm}
use solanago.Sbpf.Opcode.{jsge32_reg, jlt32_imm, jlt32_reg, jle32_imm, jle32_reg, jslt32_imm}
use solanago.Sbpf.Opcode.{jslt32_reg, jsle32_imm, jsle32_reg}
use solanago.Vm.Effect.Words.{Effect, branch, u32, i32}

unfoldable pub jump32 : Opcode → ℕ → ℕ → ℤ → Option Effect
jump32 jeq32_imm dst src imm = some (branch (u32 dst == to_u32 imm))
jump32 jeq32_reg dst src imm = some (branch (u32 dst == u32 src))
jump32 jne32_imm dst src imm = some (branch (not (u32 dst == to_u32 imm)))
jump32 jne32_reg dst src imm = some (branch (not (u32 dst == u32 src)))
jump32 jgt32_imm dst src imm = some (branch (ltb (to_u32 imm) (u32 dst)))
jump32 jgt32_reg dst src imm = some (branch (ltb (u32 src) (u32 dst)))
jump32 jge32_imm dst src imm = some (branch (leb (to_u32 imm) (u32 dst)))
jump32 jge32_reg dst src imm = some (branch (leb (u32 src) (u32 dst)))
jump32 jlt32_imm dst src imm = some (branch (ltb (u32 dst) (to_u32 imm)))
jump32 jlt32_reg dst src imm = some (branch (ltb (u32 dst) (u32 src)))
jump32 jle32_imm dst src imm = some (branch (leb (u32 dst) (to_u32 imm)))
jump32 jle32_reg dst src imm = some (branch (leb (u32 dst) (u32 src)))
jump32 jsgt32_imm dst src imm = some (branch (ltb_ℤ (of_u32 (to_u32 imm)) (i32 dst)))
jump32 jsgt32_reg dst src imm = some (branch (ltb_ℤ (i32 src) (i32 dst)))
jump32 jsge32_imm dst src imm = some (branch (leb_ℤ (of_u32 (to_u32 imm)) (i32 dst)))
jump32 jsge32_reg dst src imm = some (branch (leb_ℤ (i32 src) (i32 dst)))
jump32 jslt32_imm dst src imm = some (branch (ltb_ℤ (i32 dst) (of_u32 (to_u32 imm))))
jump32 jslt32_reg dst src imm = some (branch (ltb_ℤ (i32 dst) (i32 src)))
jump32 jsle32_imm dst src imm = some (branch (leb_ℤ (i32 dst) (of_u32 (to_u32 imm))))
jump32 jsle32_reg dst src imm = some (branch (leb_ℤ (i32 dst) (i32 src)))
jump32 _ dst src imm = none
