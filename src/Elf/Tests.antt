-- ===== src/Elf/Tests.antt =====
-- Runs of the container, and the theorems at concrete inputs.
use solanago.Base.Bytes.{all_zero, equal}
use solanago.Base.Blocks.{range}
use solanago.Base.{ℕ, true, some, ◌≡◌, refl, arith, List, [], ◌∷◌, ok, err, length}
use solanago.Base.{All}
use solanago.Base.Bytes.{IsByte}
use solanago.Base.Splice.{splice}
use solanago.Sbpf.Tests.{sbpf_runs}
use solanago.Sbpf.Instruction.{Instruction, load_imm64, return}
use solanago.Sbpf.Decode.{decode}
use solanago.Vm.Machine.{default_config, validate_config, build, fetch, new_bytes_with_config}
use solanago.Elf.Format.{
  Image, invalid_elf, invalid_entry, u16, u32, u64, align, is_instruction_start, min_uint64,
  ranges_overlap, valid_load_segment,
}
use solanago.Elf.Labels.{
  section, section_bytes, until_zero, read_string, note_section, scan_sections, find_target,
  target_pc, collides, check_symbol, check_symbols, check_labels, validate_strict_label_sections,
}
use solanago.Elf.Parse.{
  canonical_ident, program_header, text_header, check_header, verified, parse_text, parse_segment,
  parse_strict_v3,
}
use solanago.Elf.Build.{
  strtab_offset, symtab_offset, shstrtab_offset, section_offset, write_image, decode_text, build_v3,
}
use solanago.Elf.Layout.{image_layout}
use solanago.Elf.Image.{IsImage, parse_strict_v3-IsImage, parse_strict_v3-new_bytes}
use solanago.Elf.RoundTrip.{built, build_v3-built, parse_strict_v3-build_v3}

-- LD_DW_IMM, which takes the slots 0 and 1, and EXIT.
abbrev two_instructions : List Instruction
two_instructions = load_imm64 0 5 ∷ return ∷ []

abbrev two_text : List ℕ
two_text =
    0x18 ∷ 0 ∷ 0 ∷ 0 ∷ 5 ∷ 0 ∷ 0 ∷ 0 ∷ 0 ∷ 0 ∷ 0 ∷ 0 ∷ 0 ∷ 0 ∷ 0 ∷ 0 ∷ 0x95 ∷ 0 ∷ 0 ∷ 0 ∷ 0 ∷ 0 ∷ 0
    ∷ 0 ∷ []

abbrev two_image : Image
two_image = record { version = 3; entry_pc = 2; text = two_text }

-- The definitions that these runs unfold.
elf_runs : Unit {0}
unfolding sbpf_runs splice align strtab_offset symtab_offset shstrtab_offset section_offset
    write_image decode_text build_v3 u16 u32 u64 range equal all_zero is_instruction_start
    min_uint64 ranges_overlap valid_load_segment section section_bytes until_zero read_string
    note_section scan_sections find_target target_pc collides check_symbol check_symbols
    check_labels validate_strict_label_sections canonical_ident program_header text_header
    check_header verified parse_text parse_segment parse_strict_v3
elf_runs = tt

two_decoded : decode two_text ≡ ok two_instructions
unfolding elf_runs
two_decoded = refl

-- The slot 1 is no start of an instruction, and the slot 3 is behind the text.
entry_in_wide : build_v3 two_text 1 ≡ err invalid_entry
unfolding elf_runs
entry_in_wide = refl

entry_behind : build_v3 two_text 3 ≡ err invalid_entry
unfolding elf_runs
entry_behind = refl

empty_file : parse_strict_v3 [] ≡ err invalid_elf
unfolding elf_runs
empty_file = refl

written_length : length (write_image two_text 2) ≡ 568
unfolding elf_runs
written_length = refl

two_parsed : parse_strict_v3 (write_image two_text 2) ≡ ok two_image
unfolding elf_runs
two_parsed = refl

two_text-IsByte : All IsByte two_text
two_text-IsByte = omega arith

two_starts : is_instruction_start two_instructions 2 ≡ true
unfolding elf_runs
two_starts = refl

config_valid : validate_config default_config ≡ ok tt
unfolding validate_config default_config
config_valid = refl

parse_strict_v3-IsImage_example : IsImage (write_image two_text 2) two_image
parse_strict_v3-IsImage_example =
    parse_strict_v3-IsImage (write_image two_text 2) two_image two_parsed

parse_strict_v3-new_bytes_example :
    (p : List Instruction) × (new_bytes_with_config two_text default_config
      ≡ ok (build p default_config))
    × (ins : Instruction) × (fetch (build p default_config) 2 ≡ some ins)
parse_strict_v3-new_bytes_example =
    parse_strict_v3-new_bytes (write_image two_text 2) two_image default_config two_parsed
      config_valid

parse_strict_v3-build_v3_example :
    (build_v3 two_text 2 ≡ ok (image_layout two_text 2))
    × (parse_strict_v3 (image_layout two_text 2) ≡ ok two_image)
parse_strict_v3-build_v3_example =
    parse_strict_v3-build_v3 two_text two_instructions 2 two_text-IsByte two_decoded two_starts

build_v3-built_example : build_v3 two_text 1 ≡ built (decode two_text) two_text 1
build_v3-built_example = build_v3-built two_text 1 two_text-IsByte
