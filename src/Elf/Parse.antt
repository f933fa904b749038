-- ===== src/Elf/Parse.antt =====
-- elf/elf.go: `ParseStrictV3`.
use solanago.Base.Bytes.{all_zero, equal}
use solanago.Base.Blocks.{range}
use solanago.Base.{ℕ, ◌+◌, ◌-◌, ◌*◌, ◌/◌, ◌%◌, ◌^◌, Bool, not, ◌&&◌, ◌||◌}
use solanago.Base.{List, [], ◌∷◌, length, take, get_or}
use solanago.Base.{Result, ok, err, fail_if, ◌>>=◌, ◌>>◌, ltb, leb, ◌==◌, if◌then◌else◌}
use solanago.Sbpf.Instruction.{Instruction, instruction_size, mm_region_size}
use solanago.Sbpf.Decode.{decode}
use solanago.Elf.Format.{Error, invalid_elf, invalid_entry, Image, u16, u32, u64}
use solanago.Elf.Format.{
  class64, data_little, version, osabi_none, type_dynamic, machine_bpf, sbpf_version3,
}
use solanago.Elf.Format.{
  flag_execute, flag_read, header_size, program_header_size, mm_bytecode_start,
}
use solanago.Elf.Format.{is_instruction_start, valid_load_segment}
use solanago.Elf.Labels.{validate_strict_label_sections}

-- The first test on `e_ident`: it is "\x7fELF", the class, order and versions, and zeros.
unfoldable pub canonical_ident : List ℕ → Bool
canonical_ident file =
    equal (take 4 file) (0x7f ∷ 0x45 ∷ 0x4c ∷ 0x46 ∷ [])
    && get_or file 4 0 == class64
    && get_or file 5 0 == data_little
    && get_or file 6 0 == version
    && get_or file 7 0 == osabi_none
    && all_zero (range file 8 8)

unfoldable pub program_header : List ℕ → ℕ → List ℕ
program_header file index =
    range file (header_size + index * program_header_size) program_header_size

-- The header of the executable segment, and the offset that it has to give: after the table of program
-- headers, or after the read-only segment that stands there.
unfoldable pub text_header : List ℕ → Result Error (List ℕ × ℕ)
text_header file =
    let first = program_header file 0 in
    let table_end = header_size + u16 file 56 * program_header_size in
    if not (u32 first 4 == flag_read) then ok (first, table_end) else do
      fail_if (ltb (u16 file 56) 2 || not (valid_load_segment first flag_read 0 table_end file))
          invalid_elf
      ok (program_header file 1, (table_end + u64 first 32) % 2 ^ 64)

-- The tests on the header of the file.
unfoldable pub check_header : List ℕ → Result Error (Unit {0})
check_header file =
    let count = u16 file 56 in
    let table_size = count * program_header_size in
    do
      fail_if (ltb (length file) (header_size + program_header_size)) invalid_elf
      fail_if (not (canonical_ident file)) invalid_elf
      fail_if
          (not (u16 file 16 == type_dynamic)
            || not (u16 file 18 == machine_bpf)
            || not (u32 file 20 == version))
          invalid_elf
      fail_if (not (u32 file 48 == sbpf_version3)) invalid_elf
      fail_if
          (not (u64 file 32 == header_size)
            || not (u16 file 52 == header_size)
            || not (u16 file 54 == program_header_size)
            || count == 0)
          invalid_elf
      fail_if
          (not (table_size / program_header_size == count)
            || ltb (length file) (u64 file 32)
            || ltb (length file - u64 file 32) table_size)
          invalid_elf

-- The verdict of sbpf on the text.
unfoldable pub verified :
    Result solanago.Sbpf.Instruction.Error (List Instruction) → Result Error (List Instruction)
verified (ok program) = ok program
verified (err _) = err invalid_elf

-- The last steps, on the text of the executable segment.
unfoldable pub parse_text : List ℕ → List ℕ → ℕ → Result Error Image
parse_text file text entry = do
  validate_strict_label_sections file (u64 file 32) (u16 file 56 * program_header_size)
  program ← verified (decode text)
  let entry_pc = (entry - mm_bytecode_start) / instruction_size
  fail_if (not (is_instruction_start program entry_pc)) invalid_entry
  ok (record { version = sbpf_version3; entry_pc = entry_pc; text = text })

-- The steps on the executable segment, whose header and expected offset are given.
unfoldable pub parse_segment : List ℕ → List ℕ → ℕ → Result Error Image
parse_segment file header expected =
    let text_offset = u64 header 8 in
    let text_size = u64 header 32 in
    let entry = u64 file 24 in
    do
      fail_if (not (valid_load_segment header flag_execute mm_bytecode_start expected file))
          invalid_elf
      fail_if
          (text_size == 0
            || not (text_size % instruction_size == 0)
            || leb mm_region_size text_size
            || ltb (length file) text_offset
            || ltb (length file - text_offset) text_size)
          invalid_elf
      fail_if
          (ltb entry mm_bytecode_start
            || not (entry % instruction_size == 0)
            || leb text_size (entry - mm_bytecode_start))
          invalid_entry
      parse_text file (range file text_offset text_size) entry

unfoldable pub parse_strict_v3 : List ℕ → Result Error Image
parse_strict_v3 file = do
  check_header file
  chosen ← text_header file
  parse_segment file chosen.0 chosen.1
