-- ===== src/Sbpf/Opcode/Classes.antt =====
-- sbpf/opcode.go: the classes of operations, from `isALUImmediate` to `isJump`.
use solanago.Base.{Bool, true, false, ◌||◌}
use solanago.Sbpf.Opcode.{Opcode, same, ld_b_reg, ld_h_reg, ld_w_reg, ld_dw_reg, st_b_reg, st_h_reg}
use solanago.Sbpf.Opcode.{st_w_reg, st_dw_reg, add32_imm, add32_reg, sub32_imm, sub32_reg}
use solanago.Sbpf.Opcode.{mul32_imm, mul32_reg, div32_imm, div32_reg, lsh32_imm, lsh32_reg}
use solanago.Sbpf.Opcode.{rsh32_imm, rsh32_reg, neg32, mod32_imm, mod32_reg, xor32_imm}
use solanago.Sbpf.Opcode.{xor32_reg, mov32_imm, mov32_reg, arsh32_imm, arsh32_reg, add64_imm}
use solanago.Sbpf.Opcode.{add64_reg, sub64_imm, sub64_reg, mul64_imm, mul64_reg, div64_imm}
use solanago.Sbpf.Opcode.{div64_reg, lsh64_imm, lsh64_reg, rsh64_imm, rsh64_reg, mod64_imm}
use solanago.Sbpf.Opcode.{mod64_reg, xor64_imm, xor64_reg, mov64_imm, mov64_reg, arsh64_imm}
use solanago.Sbpf.Opcode.{arsh64_reg, jeq32_imm, jeq32_reg, jgt32_imm, jgt32_reg, jge32_imm}
use solanago.Sbpf.Opcode.{jge32_reg, jne32_imm, jne32_reg, jsgt32_imm, jsgt32_reg, jsge32_imm}
use solanago.Sbpf.Opcode.{jsge32_reg, jlt32_imm, jlt32_reg, jle32_imm, jle32_reg, jslt32_imm}
use solanago.Sbpf.Opcode.{jslt32_reg, jsle32_imm, jsle32_reg, ja, jeq64_imm, jeq64_reg}
use solanago.Sbpf.Opcode.{jgt64_imm, jgt64_reg, jge64_imm, jge64_reg, jne64_imm, jne64_reg}
use solanago.Sbpf.Opcode.{jsgt64_imm, jsgt64_reg, jsge64_imm, jsge64_reg, jlt64_imm}
use solanago.Sbpf.Opcode.{jlt64_reg, jle64_imm, jle64_reg, jslt64_imm, jslt64_reg, jsle64_imm}
use solanago.Sbpf.Opcode.{jsle64_reg}

unfoldable pub is_alu_immediate : Opcode → Bool
is_alu_immediate add32_imm = true
is_alu_immediate sub32_imm = true
is_alu_immediate mul32_imm = true
is_alu_immediate div32_imm = true
is_alu_immediate lsh32_imm = true
is_alu_immediate rsh32_imm = true
is_alu_immediate mod32_imm = true
is_alu_immediate xor32_imm = true
is_alu_immediate mov32_imm = true
is_alu_immediate arsh32_imm = true
is_alu_immediate add64_imm = true
is_alu_immediate sub64_imm = true
is_alu_immediate mul64_imm = true
is_alu_immediate div64_imm = true
is_alu_immediate lsh64_imm = true
is_alu_immediate rsh64_imm = true
is_alu_immediate mod64_imm = true
is_alu_immediate xor64_imm = true
is_alu_immediate mov64_imm = true
is_alu_immediate arsh64_imm = true
is_alu_immediate _ = false

unfoldable pub is_alu_register : Opcode → Bool
is_alu_register add32_reg = true
is_alu_register sub32_reg = true
is_alu_register mul32_reg = true
is_alu_register div32_reg = true
is_alu_register lsh32_reg = true
is_alu_register rsh32_reg = true
is_alu_register mod32_reg = true
is_alu_register xor32_reg = true
is_alu_register mov32_reg = true
is_alu_register arsh32_reg = true
is_alu_register add64_reg = true
is_alu_register sub64_reg = true
is_alu_register mul64_reg = true
is_alu_register div64_reg = true
is_alu_register lsh64_reg = true
is_alu_register rsh64_reg = true
is_alu_register mod64_reg = true
is_alu_register xor64_reg = true
is_alu_register mov64_reg = true
is_alu_register arsh64_reg = true
is_alu_register _ = false

unfoldable pub is_jump_immediate : Opcode → Bool
is_jump_immediate jeq32_imm = true
is_jump_immediate jgt32_imm = true
is_jump_immediate jge32_imm = true
is_jump_immediate jne32_imm = true
is_jump_immediate jsgt32_imm = true
is_jump_immediate jsge32_imm = true
is_jump_immediate jlt32_imm = true
is_jump_immediate jle32_imm = true
is_jump_immediate jslt32_imm = true
is_jump_immediate jsle32_imm = true
is_jump_immediate jeq64_imm = true
is_jump_immediate jgt64_imm = true
is_jump_immediate jge64_imm = true
is_jump_immediate jne64_imm = true
is_jump_immediate jsgt64_imm = true
is_jump_immediate jsge64_imm = true
is_jump_immediate jlt64_imm = true
is_jump_immediate jle64_imm = true
is_jump_immediate jslt64_imm = true
is_jump_immediate jsle64_imm = true
is_jump_immediate _ = false

unfoldable pub is_jump_register : Opcode → Bool
is_jump_register jeq32_reg = true
is_jump_register jgt32_reg = true
is_jump_register jge32_reg = true
is_jump_register jne32_reg = true
is_jump_register jsgt32_reg = true
is_jump_register jsge32_reg = true
is_jump_register jlt32_reg = true
is_jump_register jle32_reg = true
is_jump_register jslt32_reg = true
is_jump_register jsle32_reg = true
is_jump_register jeq64_reg = true
is_jump_register jgt64_reg = true
is_jump_register jge64_reg = true
is_jump_register jne64_reg = true
is_jump_register jsgt64_reg = true
is_jump_register jsge64_reg = true
is_jump_register jlt64_reg = true
is_jump_register jle64_reg = true
is_jump_register jslt64_reg = true
is_jump_register jsle64_reg = true
is_jump_register _ = false

unfoldable pub is_memory_load : Opcode → Bool
is_memory_load ld_b_reg = true
is_memory_load ld_h_reg = true
is_memory_load ld_w_reg = true
is_memory_load ld_dw_reg = true
is_memory_load _ = false

unfoldable pub is_memory_store : Opcode → Bool
is_memory_store st_b_reg = true
is_memory_store st_h_reg = true
is_memory_store st_w_reg = true
is_memory_store st_dw_reg = true
is_memory_store _ = false

unfoldable pub is_32bit_alu : Opcode → Bool
is_32bit_alu add32_imm = true
is_32bit_alu add32_reg = true
is_32bit_alu sub32_imm = true
is_32bit_alu sub32_reg = true
is_32bit_alu mul32_imm = true
is_32bit_alu mul32_reg = true
is_32bit_alu div32_imm = true
is_32bit_alu div32_reg = true
is_32bit_alu lsh32_imm = true
is_32bit_alu lsh32_reg = true
is_32bit_alu rsh32_imm = true
is_32bit_alu rsh32_reg = true
is_32bit_alu neg32 = true
is_32bit_alu mod32_imm = true
is_32bit_alu mod32_reg = true
is_32bit_alu xor32_imm = true
is_32bit_alu xor32_reg = true
is_32bit_alu mov32_imm = true
is_32bit_alu mov32_reg = true
is_32bit_alu arsh32_imm = true
is_32bit_alu arsh32_reg = true
is_32bit_alu _ = false

unfoldable pub is_jump : Opcode → Bool
is_jump op = same op ja || is_jump_immediate op || is_jump_register op
