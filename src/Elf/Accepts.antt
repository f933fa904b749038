-- ===== src/Elf/Accepts.antt =====
-- `ParseStrictV3` accepts the layout of an image.
use solanago.Base.Bytes.{equal}
use solanago.Base.Blocks.{range}
use solanago.Base.{
  ℕ, ◌+◌, ◌-◌, ◌*◌, ◌/◌, ◌%◌, ◌^◌, ◌≤◌, ◌<◌, ◌≡◌, refl, true, false, not, ◌&&◌, some, none, arith,
}
use solanago.Base.{List, [], length}
use solanago.Base.{ok, ltb, ◌==◌}
use solanago.Sbpf.Instruction.{Instruction}
use solanago.Sbpf.Decode.{decode}
use solanago.Base.Bytes.{get_le-put_le}
use solanago.Elf.Format.{
  u32, u64, mm_bytecode_start, valid_load_segment, ranges_overlap, is_instruction_start,
}
use solanago.Elf.Build.{
  SectionHeader, strtab_section, symtab_section, shstrtab_section, strtab, shstrtab,
}
use solanago.Elf.Labels.{
  section_bytes, read_string, until_zero, note_section, scan_sections, check_symbol, check_symbols,
  check_labels, find_target, collides, validate_strict_label_sections,
}
use solanago.Elf.Parse.{
  text_header, check_header, verified, parse_text, parse_segment, parse_strict_v3,
}
use solanago.Elf.Layout.{
  program_header_block, symbol_block, section_block, entry_address, image_layout,
}
use solanago.Elf.Reads.{
  section_block-offset, section_block-size, length-image_layout, ident-image_layout,
  type-image_layout, machine-image_layout, version-image_layout, flags-image_layout,
  programs-image_layout, size-image_layout, program_size-image_layout, program_count-image_layout,
  section_count-image_layout, names_index-image_layout, entry-image_layout, sections-image_layout,
  program_header-image_layout, text-image_layout, strtab-image_layout, symtab-image_layout,
  shstrtab-image_layout, section0-image_layout, section1-image_layout, section2-image_layout,
  section3-image_layout, section4-image_layout,
}

-- The tests on a segment, one by one.
valid_load_segment-holds :
    (header : List ℕ) (flags address offset size : ℕ) (file : List ℕ)
    → u32 header 0 ≡ 1
    → u32 header 4 ≡ flags
    → u64 header 8 ≡ offset
    → u64 header 16 ≡ address
    → u64 header 24 ≡ address
    → u64 header 32 ≡ size
    → u64 header 40 ≡ size
    → offset < length file
    → offset % 8 ≡ 0
    → size ≤ length file - offset
    → size % 8 ≡ 0
    → size < 2 ^ 32
    → valid_load_segment header flags address offset file ≡ true
unfolding valid_load_segment
valid_load_segment-holds header flags address offset size file k f o v w s m l a fits whole small =
    ground arith

module _ (text : List ℕ) (pc : ℕ) (whole : length text % 8 ≡ 0) (nonempty : 0 < length text)
    (small : length text < 2 ^ 32) (inside : pc * 8 < length text) where
  check_header-accepts : check_header (image_layout text pc) ≡ ok tt
  unfolding check_header
  check_header-accepts =
      rw
        (
          ident-image_layout text pc,
          type-image_layout text pc,
          machine-image_layout text pc,
          version-image_layout text pc,
          flags-image_layout text pc,
          programs-image_layout text pc,
          size-image_layout text pc,
          program_size-image_layout text pc,
          program_count-image_layout text pc,
          length-image_layout text pc,
        )
        (ground arith)

  text_header-accepts :
      text_header (image_layout text pc) ≡ ok (program_header_block (length text), 120)
  unfolding text_header u32
  text_header-accepts =
      rw (program_header-image_layout text pc, program_count-image_layout text pc) refl

  segment_valid :
      valid_load_segment
        (program_header_block (length text))
        1
        mm_bytecode_start
        120
        (image_layout text pc)
      ≡ true
  segment_valid =
      valid_load_segment-holds (program_header_block (length text)) 1 mm_bytecode_start 120
        (length text) (image_layout text pc) (unfold u32 in refl) (unfold u32 in refl)
        (unfold u64 in refl) (unfold u64 in refl) (unfold u64 in refl)
        (unfold u64 in get_le-put_le 8 (length text) (omega arith))
        (unfold u64 in get_le-put_le 8 (length text) (omega arith))
        (omega (arith, length-image_layout text pc)) refl
        (omega (arith, length-image_layout text pc)) whole small

  section_bytes-accepts :
      (h : SectionHeader) (alignment : ℕ)
      → h.offset < 2 ^ 63
      → h.size < 2 ^ 63
      → h.offset + h.size ≤ 544 + length text
      → (ltb 1 alignment && not (h.offset % alignment == 0)) ≡ false
      → section_bytes (image_layout text pc) (section_block h) alignment
        ≡ ok (range (image_layout text pc) h.offset h.size)
  unfolding section_bytes
  section_bytes-accepts h alignment so ss fits aligned =
      rw
        (
          section_block-offset h (omega arith),
          section_block-size h (omega arith),
          aligned,
          length-image_layout text pc,
        )
        (ground arith)

  labels-scanned :
      scan_sections
        (image_layout text pc)
        (224 + length text)
        shstrtab
        5
        0
        (record { symbol_names_header = none; symbol_table_header = none })
      ≡ ok (record {
        symbol_names_header = some (section_block (strtab_section (120 + length text)));
        symbol_table_header = some (section_block (symtab_section (136 + length text)));
      })
  unfolding scan_sections read_string until_zero note_section u32 range equal
  labels-scanned =
      rw
        (
          section0-image_layout text pc,
          section1-image_layout text pc,
          section2-image_layout text pc,
          section3-image_layout text pc,
          section4-image_layout text pc,
        )
        refl

  symbols_checked : (entry size : ℕ) → check_symbols strtab [] 2 (symbol_block entry size) ≡ ok tt
  unfolding check_symbols check_symbol find_target collides read_string until_zero u32 range
  symbols_checked entry size = refl

  labels_checked :
      check_labels (image_layout text pc) (record {
        symbol_names_header = some (section_block (strtab_section (120 + length text)));
        symbol_table_header = some (section_block (symtab_section (136 + length text)));
      })
      ≡ ok tt
  unfolding check_labels u32
  labels_checked =
      let aligned : (ltb 1 8 && not ((136 + length text) % 8 == 0)) ≡ false = ground arith in
      rw
        (
          section_bytes-accepts (strtab_section (120 + length text)) 1 (omega arith) (omega arith)
              (omega arith) refl,
          section_bytes-accepts (symtab_section (136 + length text)) 8 (omega arith) (omega arith)
              (omega arith) aligned,
          strtab-image_layout text pc,
          symtab-image_layout text pc,
          symbols_checked (entry_address pc) (length text - pc * 8),
        )
        refl

  sections-accepts : validate_strict_label_sections (image_layout text pc) 64 56 ≡ ok tt
  unfolding validate_strict_label_sections u32 ranges_overlap
  sections-accepts =
      rw
        (
          sections-image_layout text pc small,
          section_count-image_layout text pc,
          names_index-image_layout text pc,
          section4-image_layout text pc,
          length-image_layout text pc,
          section_bytes-accepts (shstrtab_section (184 + length text)) 1 (omega arith) (omega arith)
              (omega arith) refl,
          shstrtab-image_layout text pc,
          labels-scanned,
          labels_checked,
        )
        (ground arith)

  module _ (p : List Instruction) (decoded : decode text ≡ ok p)
      (starts : is_instruction_start p pc ≡ true) where
    -- `ParseStrictV3` reads the image back.
    pub parse_strict_v3-image_layout :
        parse_strict_v3 (image_layout text pc)
        ≡ ok (record { version = 3; entry_pc = pc; text = text })
    unfolding parse_strict_v3 parse_segment parse_text verified
    parse_strict_v3-image_layout =
        let sized : u64 (program_header_block (length text)) 32 ≡ length text =
          unfold u64 in get_le-put_le 8 (length text) (omega arith) in
        let placed : u64 (program_header_block (length text)) 8 ≡ 120 = unfold u64 in refl in
        let back : (mm_bytecode_start + pc * 8 - mm_bytecode_start) / 8 ≡ pc = omega arith in
        rw
          (
            check_header-accepts,
            text_header-accepts,
            segment_valid,
            sized,
            placed,
            entry-image_layout text pc (omega arith),
            text-image_layout text pc,
            programs-image_layout text pc,
            program_count-image_layout text pc,
            sections-accepts,
            decoded,
            back,
            starts,
            length-image_layout text pc,
          )
          (ground arith)
