-- ===== src/Elf/Format.antt =====
-- elf/elf.go: the constants, the little-endian words of a file, and the tests on its headers. A read
-- stays within the bytes by the tests that stand before it.
use solanago.Base.{ℕ, ◌+◌, ◌-◌, ◌%◌, bit_and, Bool, ◌&&◌}
use solanago.Base.{List, length, take, drop, ltb, leb, ◌==◌, if◌then◌else◌}
use solanago.Base.Bytes.{get_le}
use solanago.Sbpf.Instruction.{Instruction, instruction_size, mm_region_size, physical_pcs}
use solanago.Sbpf.Validate.{contains}

-- The sentinels; an error of sbpf that `BuildV3` wraps stands as it is.
pub data Error : Type 0 where
  invalid_elf invalid_entry : Error
  invalid_text : solanago.Sbpf.Instruction.Error → Error

abbrev pub class64 : ℕ
class64 = 2

abbrev pub data_little : ℕ
data_little = 1

abbrev pub version : ℕ
version = 1

abbrev pub osabi_none : ℕ
osabi_none = 0

abbrev pub type_dynamic : ℕ
type_dynamic = 3

abbrev pub machine_bpf : ℕ
machine_bpf = 247

abbrev pub sbpf_version3 : ℕ
sbpf_version3 = 3

abbrev pub program_load : ℕ
program_load = 1

abbrev pub flag_execute : ℕ
flag_execute = 1

abbrev pub flag_read : ℕ
flag_read = 4

abbrev pub section_program_bits : ℕ
section_program_bits = 1

abbrev pub section_symbol_table : ℕ
section_symbol_table = 2

abbrev pub section_string_table : ℕ
section_string_table = 3

abbrev pub section_flag_alloc : ℕ
section_flag_alloc = 2

abbrev pub section_flag_exec : ℕ
section_flag_exec = 4

abbrev pub header_size : ℕ
header_size = 64

abbrev pub program_header_size : ℕ
program_header_size = 56

abbrev pub section_header_size : ℕ
section_header_size = 64

abbrev pub symbol_size : ℕ
symbol_size = 24

abbrev pub mm_bytecode_start : ℕ
mm_bytecode_start = mm_region_size

pub record Image : Type 0 where
  pub version : ℕ
  pub entry_pc : ℕ
  pub text : List ℕ

unfoldable pub u16 : List ℕ → ℕ → ℕ
u16 bytes offset = get_le (take 2 (drop offset bytes))

unfoldable pub u32 : List ℕ → ℕ → ℕ
u32 bytes offset = get_le (take 4 (drop offset bytes))

unfoldable pub u64 : List ℕ → ℕ → ℕ
u64 bytes offset = get_le (take 8 (drop offset bytes))

-- `(value + alignment - 1) &^ (alignment - 1)`.
unfoldable pub align : ℕ → ℕ → ℕ
align value alignment = let top = value + alignment - 1 in top - bit_and top (alignment - 1)

unfoldable pub is_instruction_start : List Instruction → ℕ → Bool
is_instruction_start program pc = contains (physical_pcs program).0 pc

unfoldable pub min_uint64 : ℕ → ℕ → ℕ
min_uint64 first second = if ltb first second then first else second

unfoldable pub ranges_overlap : ℕ → ℕ → ℕ → ℕ → Bool
ranges_overlap first_start first_end second_start second_end =
    ltb first_start second_end && ltb second_start first_end

unfoldable pub valid_load_segment : List ℕ → ℕ → ℕ → ℕ → List ℕ → Bool
valid_load_segment header flags virtual_address offset bytes =
    let file_size = u64 header 32 in
    let memory_size = u64 header 40 in
    u32 header 0 == program_load
    && u32 header 4 == flags
    && u64 header 8 == offset
    && ltb offset (length bytes)
    && offset % instruction_size == 0
    && u64 header 16 == virtual_address
    && u64 header 24 == virtual_address
    && file_size == memory_size
    && leb file_size (length bytes - offset)
    && file_size % instruction_size == 0
    && ltb memory_size mm_region_size
