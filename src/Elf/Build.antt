-- ===== src/Elf/Build.antt =====
-- elf/elf.go: `BuildV3`, and the writes that it makes.
use solanago.Base.{ℕ, ◌+◌, ◌-◌, ◌*◌, not, ◌||◌}
use solanago.Base.{List, [], ◌∷◌, length, replicate}
use solanago.Base.{Result, ok, err, fail_if, ◌>>=◌, ◌>>◌, leb}
use solanago.Base.Bytes.{put_le}
use solanago.Base.Splice.{splice}
use solanago.Sbpf.Instruction.{Instruction, instruction_size, physical_pcs}
use solanago.Sbpf.Decode.{decode}
use solanago.Elf.Format.{Error, invalid_entry, invalid_text, align, is_instruction_start}
use solanago.Elf.Format.{
  class64, data_little, version, osabi_none, type_dynamic, machine_bpf, sbpf_version3,
}
use solanago.Elf.Format.{program_load, flag_execute, section_program_bits, section_symbol_table}
use solanago.Elf.Format.{section_string_table, section_flag_alloc, section_flag_exec, header_size}
use solanago.Elf.Format.{program_header_size, section_header_size, symbol_size, mm_bytecode_start}
use solanago.Elf.Parse.{parse_strict_v3}

-- A write of some bytes at an offset: `put16`, `put32`, `put64` and `copy`.
abbrev pub Write : Type 0
Write = ℕ × List ℕ

abbrev pub put16 : ℕ → ℕ → Write
put16 offset value = (offset, put_le 2 value)

abbrev pub put32 : ℕ → ℕ → Write
put32 offset value = (offset, put_le 4 value)

abbrev pub put64 : ℕ → ℕ → Write
put64 offset value = (offset, put_le 8 value)

-- Writes one after the other, in the part of the bytes that begins at `start`.
abbrev pub write_at : List ℕ → ℕ → List Write → List ℕ
write_at bytes start [] = bytes
write_at bytes start ((offset, new) ∷ rest) =
    write_at (splice bytes (start + offset) new) start rest

abbrev pub shstrtab : List ℕ
shstrtab =
    0 ∷ 0x2e ∷ 0x74 ∷ 0x65 ∷ 0x78 ∷ 0x74 ∷ 0 ∷ 0x2e ∷ 0x73 ∷ 0x79 ∷ 0x6d ∷ 0x74 ∷ 0x61 ∷ 0x62 ∷ 0
    ∷ 0x2e ∷ 0x73 ∷ 0x74 ∷ 0x72 ∷ 0x74 ∷ 0x61 ∷ 0x62 ∷ 0 ∷ 0x2e ∷ 0x73 ∷ 0x68 ∷ 0x73 ∷ 0x74 ∷ 0x72
    ∷ 0x74 ∷ 0x61 ∷ 0x62 ∷ 0 ∷ []

abbrev pub strtab : List ℕ
strtab = 0 ∷ 0x65 ∷ 0x6e ∷ 0x74 ∷ 0x72 ∷ 0x79 ∷ 0x70 ∷ 0x6f ∷ 0x69 ∷ 0x6e ∷ 0x74 ∷ 0 ∷ []

abbrev pub text_offset : ℕ
text_offset = header_size + program_header_size

-- The offsets of the parts behind a text of a given size.
unfoldable pub strtab_offset : ℕ → ℕ
strtab_offset size = align (text_offset + size) 8

unfoldable pub symtab_offset : ℕ → ℕ
symtab_offset size = align (strtab_offset size + length strtab) 8

abbrev pub symtab_size : ℕ
symtab_size = 2 * symbol_size

unfoldable pub shstrtab_offset : ℕ → ℕ
shstrtab_offset size = symtab_offset size + symtab_size

unfoldable pub section_offset : ℕ → ℕ
section_offset size = align (shstrtab_offset size + length shstrtab) 8

abbrev pub section_count : ℕ
section_count = 5

abbrev pub ident : List ℕ
ident = 0x7f ∷ 0x45 ∷ 0x4c ∷ 0x46 ∷ class64 ∷ data_little ∷ version ∷ osabi_none ∷ []

abbrev pub header_writes : ℕ → ℕ → List Write
header_writes entry sections =
    (0, ident)
    ∷ put16 16 type_dynamic
    ∷ put16 18 machine_bpf
    ∷ put32 20 version
    ∷ put64 24 entry
    ∷ put64 32 header_size
    ∷ put64 40 sections
    ∷ put32 48 sbpf_version3
    ∷ put16 52 header_size
    ∷ put16 54 program_header_size
    ∷ put16 56 1
    ∷ put16 58 section_header_size
    ∷ put16 60 section_count
    ∷ put16 62 4
    ∷ []

abbrev pub program_header_writes : ℕ → List Write
program_header_writes size =
    put32 0 program_load
    ∷ put32 4 flag_execute
    ∷ put64 8 text_offset
    ∷ put64 16 mm_bytecode_start
    ∷ put64 24 mm_bytecode_start
    ∷ put64 32 size
    ∷ put64 40 size
    ∷ put64 48 instruction_size
    ∷ []

abbrev pub symbol_writes : ℕ → ℕ → List Write
symbol_writes entry size =
    put32 0 1 ∷ (4, 0x12 ∷ []) ∷ put16 6 1 ∷ put64 8 entry ∷ put64 16 size ∷ []

pub record SectionHeader : Type 0 where
  pub name : ℕ
  pub kind : ℕ
  pub flags : ℕ
  pub address : ℕ
  pub offset : ℕ
  pub size : ℕ
  pub link : ℕ
  pub info : ℕ
  pub alignment : ℕ
  pub entry_size : ℕ

-- `writeSection`.
abbrev pub section_writes : SectionHeader → List Write
section_writes section =
    put32 0 section.name
    ∷ put32 4 section.kind
    ∷ put64 8 section.flags
    ∷ put64 16 section.address
    ∷ put64 24 section.offset
    ∷ put64 32 section.size
    ∷ put32 40 section.link
    ∷ put32 44 section.info
    ∷ put64 48 section.alignment
    ∷ put64 56 section.entry_size
    ∷ []

abbrev pub text_section : ℕ → SectionHeader
text_section size = record {
  name = 1;
  kind = section_program_bits;
  flags = section_flag_alloc + section_flag_exec;
  address = mm_bytecode_start;
  offset = text_offset;
  size = size;
  link = 0;
  info = 0;
  alignment = 8;
  entry_size = 0;
}

abbrev pub strtab_section : ℕ → SectionHeader
strtab_section offset = record {
  name = 15;
  kind = section_string_table;
  flags = 0;
  address = 0;
  offset = offset;
  size = length strtab;
  link = 0;
  info = 0;
  alignment = 1;
  entry_size = 0;
}

abbrev pub symtab_section : ℕ → SectionHeader
symtab_section offset = record {
  name = 7;
  kind = section_symbol_table;
  flags = 0;
  address = 0;
  offset = offset;
  size = symtab_size;
  link = 2;
  info = 1;
  alignment = 8;
  entry_size = symbol_size;
}

abbrev pub shstrtab_section : ℕ → SectionHeader
shstrtab_section offset = record {
  name = 23;
  kind = section_string_table;
  flags = 0;
  address = 0;
  offset = offset;
  size = length shstrtab;
  link = 0;
  info = 0;
  alignment = 1;
  entry_size = 0;
}

-- The writes of `BuildV3` to the image, in their order.
unfoldable pub write_image : List ℕ → ℕ → List ℕ
write_image text entry_pc =
    let size = length text in
    let sections = section_offset size in
    let entry = mm_bytecode_start + entry_pc * instruction_size in
    let blank = replicate (sections + section_count * section_header_size) 0 in
    let headed = write_at blank 0 (header_writes entry sections) in
    let loaded = write_at headed header_size (program_header_writes size) in
    let filled = write_at loaded 0 (
      (text_offset, text) ∷ (strtab_offset size, strtab) ∷ (shstrtab_offset size, shstrtab) ∷ []) in
    let named =
      write_at filled (symtab_offset size + symbol_size)
        (symbol_writes entry (size - entry_pc * instruction_size)) in
    let first =
      write_at named (sections + section_header_size) (section_writes (text_section size)) in
    let second =
      write_at first (sections + 2 * section_header_size)
        (section_writes (strtab_section (strtab_offset size))) in
    let third =
      write_at second (sections + 3 * section_header_size)
        (section_writes (symtab_section (symtab_offset size))) in
    write_at third (sections + 4 * section_header_size)
      (section_writes (shstrtab_section (shstrtab_offset size)))

-- The first steps of `BuildV3`.
unfoldable pub decode_text :
    Result solanago.Sbpf.Instruction.Error (List Instruction) → Result Error (List Instruction)
decode_text (ok program) = ok program
decode_text (err e) = err (invalid_text e)

unfoldable pub build_v3 : List ℕ → ℕ → Result Error (List ℕ)
build_v3 text entry_pc = do
  program ← decode_text (decode text)
  fail_if (leb (physical_pcs program).1 entry_pc || not (is_instruction_start program entry_pc))
      invalid_entry
  let result = write_image text entry_pc
  parsed ← parse_strict_v3 result
  ok result
