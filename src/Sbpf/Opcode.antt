-- ===== src/Sbpf/Opcode.antt =====
-- sbpf/opcode.go: the operation codes of sBPF version 3 and their bytes; `Names` and `Classes` have
-- the rest of the file. The Go type is a byte, of any value. A byte that names no operation is
-- `unknown`, so the conversion `Opcode(b)` is `opcode_of` and `byte(op)` is `byte_of`.
pub mod Names
pub mod Classes
pub mod Laws
use solanago.Base.{ℕ, Bool, List, [], ◌∷◌, ◌==◌, if◌then◌else◌}

pub data Opcode : Type 0 where
  ld_dw_imm ld_b_reg ld_h_reg ld_w_reg ld_dw_reg st_b_reg st_h_reg st_w_reg st_dw_reg : Opcode
  add32_imm add32_reg sub32_imm sub32_reg mul32_imm mul32_reg div32_imm div32_reg lsh32_imm : Opcode
  lsh32_reg rsh32_imm rsh32_reg neg32 mod32_imm mod32_reg xor32_imm xor32_reg mov32_imm : Opcode
  mov32_reg arsh32_imm arsh32_reg add64_imm add64_reg sub64_imm sub64_reg mul64_imm : Opcode
  mul64_reg div64_imm div64_reg lsh64_imm lsh64_reg rsh64_imm rsh64_reg neg64 mod64_imm : Opcode
  mod64_reg xor64_imm xor64_reg mov64_imm mov64_reg arsh64_imm arsh64_reg jeq32_imm : Opcode
  jeq32_reg jgt32_imm jgt32_reg jge32_imm jge32_reg jne32_imm jne32_reg jsgt32_imm : Opcode
  jsgt32_reg jsge32_imm jsge32_reg jlt32_imm jlt32_reg jle32_imm jle32_reg jslt32_imm : Opcode
  jslt32_reg jsle32_imm jsle32_reg ja jeq64_imm jeq64_reg jgt64_imm jgt64_reg jge64_imm : Opcode
  jge64_reg jne64_imm jne64_reg jsgt64_imm jsgt64_reg jsge64_imm jsge64_reg call_imm exit : Opcode
  jlt64_imm jlt64_reg jle64_imm jle64_reg jslt64_imm jslt64_reg jsle64_imm jsle64_reg : Opcode
  unknown : ℕ → Opcode

unfoldable pub byte_of : Opcode → ℕ
byte_of ld_dw_imm = 0x18
byte_of ld_b_reg = 0x71
byte_of ld_h_reg = 0x69
byte_of ld_w_reg = 0x61
byte_of ld_dw_reg = 0x79
byte_of st_b_reg = 0x73
byte_of st_h_reg = 0x6b
byte_of st_w_reg = 0x63
byte_of st_dw_reg = 0x7b
byte_of add32_imm = 0x04
byte_of add32_reg = 0x0c
byte_of sub32_imm = 0x14
byte_of sub32_reg = 0x1c
byte_of mul32_imm = 0x24
byte_of mul32_reg = 0x2c
byte_of div32_imm = 0x34
byte_of div32_reg = 0x3c
byte_of lsh32_imm = 0x64
byte_of lsh32_reg = 0x6c
byte_of rsh32_imm = 0x74
byte_of rsh32_reg = 0x7c
byte_of neg32 = 0x84
byte_of mod32_imm = 0x94
byte_of mod32_reg = 0x9c
byte_of xor32_imm = 0xa4
byte_of xor32_reg = 0xac
byte_of mov32_imm = 0xb4
byte_of mov32_reg = 0xbc
byte_of arsh32_imm = 0xc4
byte_of arsh32_reg = 0xcc
byte_of add64_imm = 0x07
byte_of add64_reg = 0x0f
byte_of sub64_imm = 0x17
byte_of sub64_reg = 0x1f
byte_of mul64_imm = 0x27
byte_of mul64_reg = 0x2f
byte_of div64_imm = 0x37
byte_of div64_reg = 0x3f
byte_of lsh64_imm = 0x67
byte_of lsh64_reg = 0x6f
byte_of rsh64_imm = 0x77
byte_of rsh64_reg = 0x7f
byte_of neg64 = 0x87
byte_of mod64_imm = 0x97
byte_of mod64_reg = 0x9f
byte_of xor64_imm = 0xa7
byte_of xor64_reg = 0xaf
byte_of mov64_imm = 0xb7
byte_of mov64_reg = 0xbf
byte_of arsh64_imm = 0xc7
byte_of arsh64_reg = 0xcf
byte_of jeq32_imm = 0x16
byte_of jeq32_reg = 0x1e
byte_of jgt32_imm = 0x26
byte_of jgt32_reg = 0x2e
byte_of jge32_imm = 0x36
byte_of jge32_reg = 0x3e
byte_of jne32_imm = 0x56
byte_of jne32_reg = 0x5e
byte_of jsgt32_imm = 0x66
byte_of jsgt32_reg = 0x6e
byte_of jsge32_imm = 0x76
byte_of jsge32_reg = 0x7e
byte_of jlt32_imm = 0xa6
byte_of jlt32_reg = 0xae
byte_of jle32_imm = 0xb6
byte_of jle32_reg = 0xbe
byte_of jslt32_imm = 0xc6
byte_of jslt32_reg = 0xce
byte_of jsle32_imm = 0xd6
byte_of jsle32_reg = 0xde
byte_of ja = 0x05
byte_of jeq64_imm = 0x15
byte_of jeq64_reg = 0x1d
byte_of jgt64_imm = 0x25
byte_of jgt64_reg = 0x2d
byte_of jge64_imm = 0x35
byte_of jge64_reg = 0x3d
byte_of jne64_imm = 0x55
byte_of jne64_reg = 0x5d
byte_of jsgt64_imm = 0x65
byte_of jsgt64_reg = 0x6d
byte_of jsge64_imm = 0x75
byte_of jsge64_reg = 0x7d
byte_of call_imm = 0x85
byte_of exit = 0x95
byte_of jlt64_imm = 0xa5
byte_of jlt64_reg = 0xad
byte_of jle64_imm = 0xb5
byte_of jle64_reg = 0xbd
byte_of jslt64_imm = 0xc5
byte_of jslt64_reg = 0xcd
byte_of jsle64_imm = 0xd5
byte_of jsle64_reg = 0xdd
byte_of (unknown b) = b

-- The keys of `opcodeNames`, in its order.
abbrev pub opcodes : List Opcode
opcodes =
    ld_dw_imm ∷ ld_b_reg ∷ ld_h_reg ∷ ld_w_reg ∷ ld_dw_reg ∷ st_b_reg ∷ st_h_reg ∷ st_w_reg
    ∷ st_dw_reg ∷ add32_imm ∷ add32_reg ∷ sub32_imm ∷ sub32_reg ∷ mul32_imm ∷ mul32_reg ∷ div32_imm
    ∷ div32_reg ∷ lsh32_imm ∷ lsh32_reg ∷ rsh32_imm ∷ rsh32_reg ∷ neg32 ∷ mod32_imm ∷ mod32_reg
    ∷ xor32_imm ∷ xor32_reg ∷ mov32_imm ∷ mov32_reg ∷ arsh32_imm ∷ arsh32_reg ∷ add64_imm
    ∷ add64_reg ∷ sub64_imm ∷ sub64_reg ∷ mul64_imm ∷ mul64_reg ∷ div64_imm ∷ div64_reg ∷ lsh64_imm
    ∷ lsh64_reg ∷ rsh64_imm ∷ rsh64_reg ∷ neg64 ∷ mod64_imm ∷ mod64_reg ∷ xor64_imm ∷ xor64_reg
    ∷ mov64_imm ∷ mov64_reg ∷ arsh64_imm ∷ arsh64_reg ∷ jeq32_imm ∷ jeq32_reg ∷ jgt32_imm
    ∷ jgt32_reg ∷ jge32_imm ∷ jge32_reg ∷ jne32_imm ∷ jne32_reg ∷ jsgt32_imm ∷ jsgt32_reg
    ∷ jsge32_imm ∷ jsge32_reg ∷ jlt32_imm ∷ jlt32_reg ∷ jle32_imm ∷ jle32_reg ∷ jslt32_imm
    ∷ jslt32_reg ∷ jsle32_imm ∷ jsle32_reg ∷ ja ∷ jeq64_imm ∷ jeq64_reg ∷ jgt64_imm ∷ jgt64_reg
    ∷ jge64_imm ∷ jge64_reg ∷ jne64_imm ∷ jne64_reg ∷ jsgt64_imm ∷ jsgt64_reg ∷ jsge64_imm
    ∷ jsge64_reg ∷ call_imm ∷ exit ∷ jlt64_imm ∷ jlt64_reg ∷ jle64_imm ∷ jle64_reg ∷ jslt64_imm
    ∷ jslt64_reg ∷ jsle64_imm ∷ jsle64_reg ∷ []

-- `a == b` on two opcodes compares their bytes.
unfoldable pub same : Opcode → Opcode → Bool
same a b = byte_of a == byte_of b

find_opcode : ℕ → List Opcode → Opcode
find_opcode b [] = unknown b
find_opcode b (op ∷ rest) = if byte_of op == b then op else find_opcode b rest

unfoldable pub opcode_of : ℕ → Opcode
unfolding find_opcode
opcode_of b = find_opcode b opcodes
