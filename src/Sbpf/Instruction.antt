-- ===== src/Sbpf/Instruction.antt =====
-- sbpf/instruction.go: decoded instructions, their constructors and their places in a program.
-- `Dst` and `Src` are bytes, `Offset` is an int16 and `Immediate` an int64.
use solanago.Base.{ℕ, ◌+◌, ◌-◌, ◌*◌, ◌^◌, ◌<◌, Bool, ◌||◌, List, [], ◌∷◌, Result, ok, err}
use solanago.Base.{ltb, if◌then◌else◌}
use solanago.Base.Int.{ℤ, pos, negsuc, ◌+ℤ◌, ltb_ℤ, of_u64, of_u32, IsInt16, IsInt64}
use solanago.Sbpf.Opcode.{Opcode, same, ld_dw_imm, ja, call_imm, exit}
use solanago.Sbpf.Opcode.{ld_b_reg, ld_h_reg, ld_w_reg, ld_dw_reg, st_b_reg, st_h_reg, st_w_reg}
use solanago.Sbpf.Opcode.{st_dw_reg}

abbrev pub instruction_size : ℕ
instruction_size = 8

abbrev pub max_program_instructions : ℕ
max_program_instructions = 65536

abbrev pub register_count : ℕ
register_count = 11

abbrev pub mm_region_size : ℕ
mm_region_size = 2 ^ 32

abbrev pub mm_stack_start : ℕ
mm_stack_start = 2 * mm_region_size

-- r10.
abbrev pub frame_pointer : ℕ
frame_pointer = 10

-- The sentinel errors; a returned error wraps one of them, and its message is left out.
pub data Error : Type 0 where
  malformed_bytecode invalid_opcode invalid_register invalid_jump : Error
  division_by_zero program_too_large empty_program : Error

-- `Register.valid`.
unfoldable pub register_is_valid : ℕ → Bool
register_is_valid r = ltb r register_count

pub record Instruction : Type 0 where
  pub op : Opcode
  pub dst : ℕ
  pub src : ℕ
  pub offset : ℤ
  pub immediate : ℤ

-- What the Go types of the fields allow.
pub record IsTyped (ins : Instruction) : Type 0 where
  pub dst_byte : ins.dst < 256
  pub src_byte : ins.src < 256
  pub offset_int16 : IsInt16 ins.offset
  pub immediate_int64 : IsInt64 ins.immediate

pub data MemoryType : Type 0 where
  memory_invalid memory_byte memory_half memory_word memory_double_word : MemoryType

-- `MemoryType.Bytes`.
unfoldable pub width_of : MemoryType → ℕ
width_of memory_byte = 1
width_of memory_half = 2
width_of memory_word = 4
width_of memory_double_word = 8
width_of memory_invalid = 0

-- `Instruction.MemoryType`.
unfoldable pub memory_type : Opcode → MemoryType
memory_type ld_b_reg = memory_byte
memory_type st_b_reg = memory_byte
memory_type ld_h_reg = memory_half
memory_type st_h_reg = memory_half
memory_type ld_w_reg = memory_word
memory_type st_w_reg = memory_word
memory_type ld_dw_reg = memory_double_word
memory_type st_dw_reg = memory_double_word
memory_type _ = memory_invalid

unfoldable pub load_memory : MemoryType → ℕ → ℕ → ℤ → Result Error Instruction
load_memory memory_byte dst base off =
    ok (record { op = ld_b_reg; dst = dst; src = base; offset = off; immediate = pos 0 })
load_memory memory_half dst base off =
    ok (record { op = ld_h_reg; dst = dst; src = base; offset = off; immediate = pos 0 })
load_memory memory_word dst base off =
    ok (record { op = ld_w_reg; dst = dst; src = base; offset = off; immediate = pos 0 })
load_memory memory_double_word dst base off =
    ok (record { op = ld_dw_reg; dst = dst; src = base; offset = off; immediate = pos 0 })
load_memory memory_invalid dst base off = err malformed_bytecode

unfoldable pub store_memory : MemoryType → ℕ → ℕ → ℤ → Result Error Instruction
store_memory memory_byte base src off =
    ok (record { op = st_b_reg; dst = base; src = src; offset = off; immediate = pos 0 })
store_memory memory_half base src off =
    ok (record { op = st_h_reg; dst = base; src = src; offset = off; immediate = pos 0 })
store_memory memory_word base src off =
    ok (record { op = st_w_reg; dst = base; src = src; offset = off; immediate = pos 0 })
store_memory memory_double_word base src off =
    ok (record { op = st_dw_reg; dst = base; src = src; offset = off; immediate = pos 0 })
store_memory memory_invalid base src off = err malformed_bytecode

-- `Instruction.Slots`.
unfoldable pub slots : Instruction → ℕ
slots ins = if same ins.op ld_dw_imm then 2 else 1

unfoldable pub load_imm64 : ℕ → ℕ → Instruction
load_imm64 dst value = record {
  op = ld_dw_imm;
  dst = dst;
  src = 0;
  offset = pos 0;
  immediate = of_u64 value;
}

unfoldable pub alu_reg : Opcode → ℕ → ℕ → Instruction
alu_reg op dst src = record { op = op; dst = dst; src = src; offset = pos 0; immediate = pos 0 }

unfoldable pub alu_imm : Opcode → ℕ → ℤ → Instruction
alu_imm op dst imm = record { op = op; dst = dst; src = 0; offset = pos 0; immediate = imm }

unfoldable pub jump_reg : Opcode → ℕ → ℕ → ℤ → Instruction
jump_reg op dst src off = record { op = op; dst = dst; src = src; offset = off; immediate = pos 0 }

unfoldable pub jump_imm : Opcode → ℕ → ℤ → ℤ → Instruction
jump_imm op dst imm off = record { op = op; dst = dst; src = 0; offset = off; immediate = imm }

unfoldable pub jump : ℤ → Instruction
jump off = record { op = ja; dst = 0; src = 0; offset = off; immediate = pos 0 }

unfoldable pub call_relative : ℤ → Instruction
call_relative off = record { op = call_imm; dst = 0; src = 1; offset = pos 0; immediate = off }

unfoldable pub return : Instruction
return = record { op = exit; dst = 0; src = 0; offset = pos 0; immediate = pos 0 }

-- `StaticSyscall` of sbpf/syscall.go.
unfoldable pub static_syscall : ℕ → Instruction
static_syscall key = record {
  op = call_imm;
  dst = 0;
  src = 0;
  offset = pos 0;
  immediate = of_u32 key;
}

-- The loop of `PhysicalPCs` from the count `pc` on.
unfoldable pub pcs_from : ℕ → List Instruction → List ℕ × ℕ
pcs_from pc [] = ([], pc)
pcs_from pc (ins ∷ rest) = let (pcs, total) = pcs_from (pc + slots ins) rest in (pc ∷ pcs, total)

unfoldable pub physical_pcs : List Instruction → List ℕ × ℕ
physical_pcs program = pcs_from 0 program

-- The counts are `int`s, which the program's length keeps far from overflow.
unfoldable pub relative_offset : ℕ → ℕ → Result Error ℤ
relative_offset source target =
    let off = pos target +ℤ negsuc source in
    if ltb_ℤ off (negsuc (2 ^ 31 - 1)) || ltb_ℤ (pos (2 ^ 31 - 1)) off
    then err invalid_jump
    else ok off
