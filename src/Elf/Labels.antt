-- ===== src/Elf/Labels.antt =====
-- elf/elf.go: `validateStrictLabelSections`, the checks of the section and symbol tables.
use solanago.Base.Bytes.{equal}
use solanago.Base.Blocks.{range}
use solanago.Base.{ℕ, zero, suc, ◌+◌, ◌-◌, ◌*◌, ◌/◌, ◌%◌, bit_and, Bool, false, not, ◌&&◌, ◌||◌}
use solanago.Base.{List, [], ◌∷◌, length, drop, get_or, Option, none, some}
use solanago.Base.{Result, ok, err, fail_if, ◌>>=◌, ◌>>◌, ltb, leb, ◌==◌, if◌then◌else◌}
use solanago.Sbpf.Instruction.{instruction_size}
use solanago.Sbpf.Syscall.{hash_symbol_name}
use solanago.Elf.Format.{Error, invalid_elf, u16, u32, u64, min_uint64, ranges_overlap}
use solanago.Elf.Format.{
  section_header_size, header_size, section_string_table, symbol_size, mm_bytecode_start,
}

unfoldable pub section : List ℕ → ℕ → ℕ → List ℕ
section bytes section_offset index =
    range bytes (section_offset + index * section_header_size) section_header_size

unfoldable pub section_bytes : List ℕ → List ℕ → ℕ → Result Error (List ℕ)
section_bytes bytes header alignment =
    let offset = u64 header 24 in
    let size = u64 header 32 in
    do
      fail_if (ltb 1 alignment && not (offset % alignment == 0)) invalid_elf
      fail_if (ltb (length bytes) offset || ltb (length bytes - offset) size) invalid_elf
      ok (range bytes offset size)

-- The loop of `readString`: the bytes before the first zero.
unfoldable pub until_zero : List ℕ → Result Error (List ℕ)
until_zero [] = err invalid_elf
until_zero (b ∷ rest) =
    let more = until_zero rest in if b == 0 then ok [] else (more >>= λ name. ok (b ∷ name))

unfoldable pub read_string : List ℕ → ℕ → ℕ → Result Error (List ℕ)
read_string table start maximum = do
  fail_if (leb (length table) start) invalid_elf
  let limit = if ltb maximum (length table - start) then maximum else length table - start
  until_zero (range table start limit)

-- The headers named ".strtab" and ".symtab", nil until they are found.
pub record Labels : Type 0 where
  pub symbol_names_header : Option (List ℕ)
  pub symbol_table_header : Option (List ℕ)

abbrev pub strtab_name : List ℕ
strtab_name = 0x2e ∷ 0x73 ∷ 0x74 ∷ 0x72 ∷ 0x74 ∷ 0x61 ∷ 0x62 ∷ []

abbrev pub symtab_name : List ℕ
symtab_name = 0x2e ∷ 0x73 ∷ 0x79 ∷ 0x6d ∷ 0x74 ∷ 0x61 ∷ 0x62 ∷ []

-- The `switch` on the name of a section.
unfoldable pub note_section : Labels → List ℕ → List ℕ → Labels
note_section labels name header =
    if equal name strtab_name
    then record labels { symbol_names_header = some header }
    else if equal name symtab_name
    then record labels { symbol_table_header = some header }
    else labels

-- The loop over the sections: so many are left, from `index` on.
unfoldable pub scan_sections : List ℕ → ℕ → List ℕ → ℕ → ℕ → Labels → Result Error Labels
scan_sections bytes section_offset names zero index labels = ok labels
scan_sections bytes section_offset names (suc left) index labels = do
  let header = section bytes section_offset index
  name ← read_string names (u32 header 0) 64
  scan_sections bytes section_offset names left (suc index) (note_section labels name header)

-- `functionTargets`, the newest entry first.
abbrev pub Targets : Type 0
Targets = List (ℕ × ℕ)

unfoldable pub find_target : Targets → ℕ → Option ℕ
find_target [] hash = none
find_target ((key, target) ∷ rest) hash = if key == hash then some target else find_target rest hash

unfoldable pub target_pc : List ℕ → ℕ
target_pc symbol = (u64 symbol 8 - min_uint64 (u64 symbol 8) mm_bytecode_start) / instruction_size

-- `previous, exists := functionTargets[hash]; exists && previous != targetPC`.
unfoldable pub collides : Option ℕ → ℕ → Bool
collides none target = false
collides (some previous) target = not (previous == target)

-- The body of the loop over the symbols.
unfoldable pub check_symbol : List ℕ → Targets → List ℕ → Result Error Targets
check_symbol symbol_names targets symbol =
    if bit_and (get_or symbol 4 0) 2 == 0 then ok targets else do
      name ← read_string symbol_names (u32 symbol 0) 255
      let hash = hash_symbol_name name
      fail_if (collides (find_target targets hash) (target_pc symbol)) invalid_elf
      ok ((hash, target_pc symbol) ∷ targets)

-- The loop over the symbols, so many of them.
unfoldable pub check_symbols : List ℕ → Targets → ℕ → List ℕ → Result Error (Unit {0})
check_symbols symbol_names targets zero symbols = ok tt
check_symbols symbol_names targets (suc left) symbols = do
  noted ← check_symbol symbol_names targets (range symbols 0 symbol_size)
  check_symbols symbol_names noted left (drop symbol_size symbols)

-- What follows the loop over the sections.
unfoldable pub check_labels : List ℕ → Labels → Result Error (Unit {0})
check_labels bytes labels = elim labels.symbol_names_header [
  | none ↦ elim labels.symbol_table_header [ none ↦ ok tt | some _ ↦ err invalid_elf ]
  | some names_header ↦ elim labels.symbol_table_header [
    | none ↦ err invalid_elf
    | some table_header ↦ do
      fail_if (not (u32 names_header 4 == section_string_table)) invalid_elf
      symbol_names ← section_bytes bytes names_header 1
      symbols ← section_bytes bytes table_header 8
      fail_if (not (length symbols % symbol_size == 0)) invalid_elf
      check_symbols symbol_names [] (length symbols / symbol_size) symbols
  ]
]

unfoldable pub validate_strict_label_sections : List ℕ → ℕ → ℕ → Result Error (Unit {0})
validate_strict_label_sections bytes program_header_offset program_header_table_size =
    let section_offset = u64 bytes 40 in
    let section_count = u16 bytes 60 in
    let section_names_index = u16 bytes 62 in
    let section_table_size = section_count * section_header_size in
    let section_end = section_offset + section_table_size in
    let program_header_end = program_header_offset + program_header_table_size in
    let names_header = section bytes section_offset section_names_index in
    do
      fail_if
          (section_count == 0
            || section_names_index == 0
            || leb section_count section_names_index
            || not (section_offset % 8 == 0))
          invalid_elf
      fail_if
          (not (section_table_size / section_header_size == section_count)
            || ltb (length bytes) section_offset
            || ltb (length bytes - section_offset) section_table_size)
          invalid_elf
      fail_if
          (ranges_overlap section_offset section_end 0 header_size
            || ranges_overlap section_offset section_end program_header_offset program_header_end)
          invalid_elf
      section_names ← section_bytes bytes names_header 1
      fail_if (not (u32 names_header 4 == section_string_table)) invalid_elf
      labels ←
          scan_sections bytes section_offset section_names section_count 0
            (record { symbol_names_header = none; symbol_table_header = none })
      check_labels bytes labels
