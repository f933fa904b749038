-- ===== src/Sbpf/Opcode/Names.antt =====
-- sbpf/opcode.go: `opcodeNames`, `String` and `valid`.
use solanago.Base.{Bool, true, false, Option, none, some}
use solanago.Sbpf.Opcode.{Opcode, ld_dw_imm, ld_b_reg, ld_h_reg, ld_w_reg, ld_dw_reg}
use solanago.Sbpf.Opcode.{st_b_reg, st_h_reg, st_w_reg, st_dw_reg, add32_imm, add32_reg}
use solanago.Sbpf.Opcode.{sub32_imm, sub32_reg, mul32_imm, mul32_reg, div32_imm, div32_reg}
use solanago.Sbpf.Opcode.{lsh32_imm, lsh32_reg, rsh32_imm, rsh32_reg, neg32, mod32_imm}
use solanago.Sbpf.Opcode.{mod32_reg, xor32_imm, xor32_reg, mov32_imm, mov32_reg, arsh32_imm}
use solanago.Sbpf.Opcode.{arsh32_reg, add64_imm, add64_reg, sub64_imm, sub64_reg, mul64_imm}
use solanago.Sbpf.Opcode.{mul64_reg, div64_imm, div64_reg, lsh64_imm, lsh64_reg, rsh64_imm}
use solanago.Sbpf.Opcode.{rsh64_reg, neg64, mod64_imm, mod64_reg, xor64_imm, xor64_reg}
use solanago.Sbpf.Opcode.{mov64_imm, mov64_reg, arsh64_imm, arsh64_reg, jeq32_imm, jeq32_reg}
use solanago.Sbpf.Opcode.{jgt32_imm, jgt32_reg, jge32_imm, jge32_reg, jne32_imm, jne32_reg}
use solanago.Sbpf.Opcode.{jsgt32_imm, jsgt32_reg, jsge32_imm, jsge32_reg, jlt32_imm}
use solanago.Sbpf.Opcode.{jlt32_reg, jle32_imm, jle32_reg, jslt32_imm, jslt32_reg, jsle32_imm}
use solanago.Sbpf.Opcode.{jsle32_reg, ja, jeq64_imm, jeq64_reg, jgt64_imm, jgt64_reg}
use solanago.Sbpf.Opcode.{jge64_imm, jge64_reg, jne64_imm, jne64_reg, jsgt64_imm, jsgt64_reg}
use solanago.Sbpf.Opcode.{jsge64_imm, jsge64_reg, call_imm, exit, jlt64_imm, jlt64_reg}
use solanago.Sbpf.Opcode.{jle64_imm, jle64_reg, jslt64_imm, jslt64_reg, jsle64_imm}
use solanago.Sbpf.Opcode.{jsle64_reg, unknown}
use Prim.Native.String.{String}

-- `opcodeNames`: `none` is a key that the map lacks.
unfoldable pub opcode_name : Opcode → Option String
opcode_name (unknown b) = none
opcode_name ld_dw_imm = some "LD_DW_IMM"
opcode_name ld_b_reg = some "LD_B_REG"
opcode_name ld_h_reg = some "LD_H_REG"
opcode_name ld_w_reg = some "LD_W_REG"
opcode_name ld_dw_reg = some "LD_DW_REG"
opcode_name st_b_reg = some "ST_B_REG"
opcode_name st_h_reg = some "ST_H_REG"
opcode_name st_w_reg = some "ST_W_REG"
opcode_name st_dw_reg = some "ST_DW_REG"
opcode_name add32_imm = some "ADD32_IMM"
opcode_name add32_reg = some "ADD32_REG"
opcode_name sub32_imm = some "SUB32_IMM"
opcode_name sub32_reg = some "SUB32_REG"
opcode_name mul32_imm = some "MUL32_IMM"
opcode_name mul32_reg = some "MUL32_REG"
opcode_name div32_imm = some "DIV32_IMM"
opcode_name div32_reg = some "DIV32_REG"
opcode_name lsh32_imm = some "LSH32_IMM"
opcode_name lsh32_reg = some "LSH32_REG"
opcode_name rsh32_imm = some "RSH32_IMM"
opcode_name rsh32_reg = some "RSH32_REG"
opcode_name neg32 = some "NEG32"
opcode_name mod32_imm = some "MOD32_IMM"
opcode_name mod32_reg = some "MOD32_REG"
opcode_name xor32_imm = some "XOR32_IMM"
opcode_name xor32_reg = some "XOR32_REG"
opcode_name mov32_imm = some "MOV32_IMM"
opcode_name mov32_reg = some "MOV32_REG"
opcode_name arsh32_imm = some "ARSH32_IMM"
opcode_name arsh32_reg = some "ARSH32_REG"
opcode_name add64_imm = some "ADD64_IMM"
opcode_name add64_reg = some "ADD64_REG"
opcode_name sub64_imm = some "SUB64_IMM"
opcode_name sub64_reg = some "SUB64_REG"
opcode_name mul64_imm = some "MUL64_IMM"
opcode_name mul64_reg = some "MUL64_REG"
opcode_name div64_imm = some "DIV64_IMM"
opcode_name div64_reg = some "DIV64_REG"
opcode_name lsh64_imm = some "LSH64_IMM"
opcode_name lsh64_reg = some "LSH64_REG"
opcode_name rsh64_imm = some "RSH64_IMM"
opcode_name rsh64_reg = some "RSH64_REG"
opcode_name neg64 = some "NEG64"
opcode_name mod64_imm = some "MOD64_IMM"
opcode_name mod64_reg = some "MOD64_REG"
opcode_name xor64_imm = some "XOR64_IMM"
opcode_name xor64_reg = some "XOR64_REG"
opcode_name mov64_imm = some "MOV64_IMM"
opcode_name mov64_reg = some "MOV64_REG"
opcode_name arsh64_imm = some "ARSH64_IMM"
opcode_name arsh64_reg = some "ARSH64_REG"
opcode_name jeq32_imm = some "JEQ32_IMM"
opcode_name jeq32_reg = some "JEQ32_REG"
opcode_name jgt32_imm = some "JGT32_IMM"
opcode_name jgt32_reg = some "JGT32_REG"
opcode_name jge32_imm = some "JGE32_IMM"
opcode_name jge32_reg = some "JGE32_REG"
opcode_name jne32_imm = some "JNE32_IMM"
opcode_name jne32_reg = some "JNE32_REG"
opcode_name jsgt32_imm = some "JSGT32_IMM"
opcode_name jsgt32_reg = some "JSGT32_REG"
opcode_name jsge32_imm = some "JSGE32_IMM"
opcode_name jsge32_reg = some "JSGE32_REG"
opcode_name jlt32_imm = some "JLT32_IMM"
opcode_name jlt32_reg = some "JLT32_REG"
opcode_name jle32_imm = some "JLE32_IMM"
opcode_name jle32_reg = some "JLE32_REG"
opcode_name jslt32_imm = some "JSLT32_IMM"
opcode_name jslt32_reg = some "JSLT32_REG"
opcode_name jsle32_imm = some "JSLE32_IMM"
opcode_name jsle32_reg = some "JSLE32_REG"
opcode_name ja = some "JA"
opcode_name jeq64_imm = some "JEQ64_IMM"
opcode_name jeq64_reg = some "JEQ64_REG"
opcode_name jgt64_imm = some "JGT64_IMM"
opcode_name jgt64_reg = some "JGT64_REG"
opcode_name jge64_imm = some "JGE64_IMM"
opcode_name jge64_reg = some "JGE64_REG"
opcode_name jne64_imm = some "JNE64_IMM"
opcode_name jne64_reg = some "JNE64_REG"
opcode_name jsgt64_imm = some "JSGT64_IMM"
opcode_name jsgt64_reg = some "JSGT64_REG"
opcode_name jsge64_imm = some "JSGE64_IMM"
opcode_name jsge64_reg = some "JSGE64_REG"
opcode_name call_imm = some "CALL_IMM"
opcode_name exit = some "EXIT"
opcode_name jlt64_imm = some "JLT64_IMM"
opcode_name jlt64_reg = some "JLT64_REG"
opcode_name jle64_imm = some "JLE64_IMM"
opcode_name jle64_reg = some "JLE64_REG"
opcode_name jslt64_imm = some "JSLT64_IMM"
opcode_name jslt64_reg = some "JSLT64_REG"
opcode_name jsle64_imm = some "JSLE64_IMM"
opcode_name jsle64_reg = some "JSLE64_REG"

-- `Opcode.String`.
unfoldable pub op_string : Opcode → String
op_string op = elim (opcode_name op) [ some name ↦ name | none ↦ "UNKNOWN" ]

unfoldable pub is_valid : Opcode → Bool
is_valid op = elim (opcode_name op) [ some name ↦ true | none ↦ false ]
