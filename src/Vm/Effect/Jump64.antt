-- ===== src/Vm/Effect/Jump64.antt =====
-- JA and the 64-bit conditional jumps of `execute`.
use solanago.Base.{ℕ, true, not, Option, none, some}
use solanago.Base.{ltb, leb, ◌==◌}
use solanago.Base.Int.{ℤ, to_u64, of_u64, ltb_ℤ, leb_ℤ}
use solanago.Sbpf.Opcode.{Opcode, ja, jeq64_imm, jeq64_reg, jgt64_imm, jgt64_reg, jge64_imm}
use solanago.Sbpf.Opcode.{jge64_reg, jne64_imm, jne64_reg, jsgt64_imm, jsgt64_reg, jsge64_imm}
use solanago.Sbpf.Opcode.{jsge64_reg, jlt64_imm, jlt64_reg, jle64_imm, jle64_reg, jslt64_imm}
use solanago.Sbpf.Opcode.{jslt64_reg, jsle64_imm, jsle64_reg}
use solanago.Vm.Effect.Words.{Effect, branch}

unfoldable pub jump64 : Opcode → ℕ → ℕ → ℤ → Option Effect
jump64 ja dst src imm = some (branch true)
jump64 jeq64_imm dst src imm = some (branch (dst == to_u64 imm))
jump64 jeq64_reg dst src imm = some (branch (dst == src))
jump64 jne64_imm dst src imm = some (branch (not (dst == to_u64 imm)))
jump64 jne64_reg dst src imm = some (branch (not (dst == src)))
jump64 jgt64_imm dst src imm = some (branch (ltb (to_u64 imm) dst))
jump64 jgt64_reg dst src imm = some (branch (ltb src dst))
jump64 jge64_imm dst src imm = some (branch (leb (to_u64 imm) dst))
jump64 jge64_reg dst src imm = some (branch (leb src dst))
jump64 jlt64_imm dst src imm = some (branch (ltb dst (to_u64 imm)))
jump64 jlt64_reg dst src imm = some (branch (ltb dst src))
jump64 jle64_imm dst src imm = some (branch (leb dst (to_u64 imm)))
jump64 jle64_reg dst src imm = some (branch (leb dst src))
jump64 jsgt64_imm dst src imm = some (branch (ltb_ℤ imm (of_u64 dst)))
jump64 jsgt64_reg dst src imm = some (branch (ltb_ℤ (of_u64 src) (of_u64 dst)))
jump64 jsge64_imm dst src imm = some (branch (leb_ℤ imm (of_u64 dst)))
jump64 jsge64_reg dst src imm = some (branch (leb_ℤ (of_u64 src) (of_u64 dst)))
jump64 jslt64_imm dst src imm = some (branch (ltb_ℤ (of_u64 dst) imm))
jump64 jslt64_reg dst src imm = some (branch (ltb_ℤ (of_u64 dst) (of_u64 src)))
jump64 jsle64_imm dst src imm = some (branch (leb_ℤ (of_u64 dst) imm))
jump64 jsle64_reg dst src imm = some (branch (leb_ℤ (of_u64 dst) (of_u64 src)))
jump64 _ dst src imm = none
