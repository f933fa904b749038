-- ===== src/Elf/Reads.antt =====
-- What is read from the layout of an image.
use solanago.Base.Bytes.{all_zero, equal}
use solanago.Base.Blocks.{length-join, range-whole, before, range, range-join}
use solanago.Base.{ℕ, ◌+◌, ◌-◌, ◌*◌, ◌^◌, ◌≤◌, ◌<◌, ◌≡◌, refl, ap, ◌∙◌, true, some, arith}
use solanago.Base.{List, length, replicate, get_elem?}
use solanago.Base.Bytes.{get_le, put_le, get_le-put_le}
use solanago.Elf.Format.{u16, u32, u64, mm_bytecode_start}
use solanago.Elf.Build.{
  SectionHeader, text_section, strtab_section, symtab_section, shstrtab_section, strtab, shstrtab,
}
use solanago.Elf.Labels.{section}
use solanago.Elf.Parse.{canonical_ident, program_header}
use solanago.Elf.Layout.{
  program_header_block, symbol_block, section_block, entry_address, blocks, image_layout,
}

-- A word of eight bytes at the head of some bytes.
word-at :
    (bytes : List ℕ) (offset w : ℕ)
    → range bytes offset 8 ≡ put_le 8 w
    → w < 2 ^ 64
    → u64 bytes offset ≡ w
unfolding u64 range
word-at bytes offset w e h = ap get_le e ∙ get_le-put_le 8 w (omega arith)

pub section_block-offset :
    (h : SectionHeader) → h.offset < 2 ^ 64 → u64 (section_block h) 24 ≡ h.offset
section_block-offset h small = word-at _ 24 h.offset (unfold range in refl) small

pub section_block-size : (h : SectionHeader) → h.size < 2 ^ 64 → u64 (section_block h) 32 ≡ h.size
section_block-size h small = word-at _ 32 h.size (unfold range in refl) small

section_block-whole : (h : SectionHeader) → range (section_block h) 0 64 ≡ section_block h
unfolding range
section_block-whole h = refl

module _ (text : List ℕ) (pc : ℕ) where
  pub length-image_layout : length (image_layout text pc) ≡ 544 + length text
  unfolding image_layout
  length-image_layout = length-join (blocks text pc) ∙ omega arith

  pub ident-image_layout : canonical_ident (image_layout text pc) ≡ true
  unfolding image_layout canonical_ident equal all_zero range
  ident-image_layout = refl

  pub type-image_layout : u16 (image_layout text pc) 16 ≡ 3
  unfolding image_layout u16
  type-image_layout = refl

  pub machine-image_layout : u16 (image_layout text pc) 18 ≡ 247
  unfolding image_layout u16
  machine-image_layout = refl

  pub version-image_layout : u32 (image_layout text pc) 20 ≡ 1
  unfolding image_layout u32
  version-image_layout = refl

  pub flags-image_layout : u32 (image_layout text pc) 48 ≡ 3
  unfolding image_layout u32
  flags-image_layout = refl

  pub programs-image_layout : u64 (image_layout text pc) 32 ≡ 64
  unfolding image_layout u64
  programs-image_layout = refl

  pub size-image_layout : u16 (image_layout text pc) 52 ≡ 64
  unfolding image_layout u16
  size-image_layout = refl

  pub program_size-image_layout : u16 (image_layout text pc) 54 ≡ 56
  unfolding image_layout u16
  program_size-image_layout = refl

  pub program_count-image_layout : u16 (image_layout text pc) 56 ≡ 1
  unfolding image_layout u16
  program_count-image_layout = refl

  pub section_count-image_layout : u16 (image_layout text pc) 60 ≡ 5
  unfolding image_layout u16
  section_count-image_layout = refl

  pub names_index-image_layout : u16 (image_layout text pc) 62 ≡ 4
  unfolding image_layout u16
  names_index-image_layout = refl

  pub entry-image_layout : pc < 2 ^ 32 → u64 (image_layout text pc) 24 ≡ mm_bytecode_start + pc * 8
  unfolding image_layout u64
  entry-image_layout small = get_le-put_le 8 (entry_address pc) (omega arith)

  pub sections-image_layout :
      length text < 2 ^ 32 → u64 (image_layout text pc) 40 ≡ 224 + length text
  unfolding image_layout u64
  sections-image_layout small = get_le-put_le 8 (224 + length text) (omega arith)

  pub program_header-image_layout :
      program_header (image_layout text pc) 0 ≡ program_header_block (length text)
  unfolding image_layout program_header range
  program_header-image_layout = refl

  block-range :
      (i : ℕ) (b : List ℕ) (start size : ℕ)
      → get_elem? (blocks text pc) i ≡ some b
      → start ≡ before (blocks text pc) i
      → size ≤ length b
      → range (image_layout text pc) start size ≡ range b 0 size
  unfolding image_layout
  block-range i b start size at here inside =
      range-join (blocks text pc) i b start 0 size at (omega arith) (omega arith)

  pub text-image_layout : range (image_layout text pc) 120 (length text) ≡ text
  text-image_layout =
      block-range 2 text 120 (length text) refl refl (omega arith) ∙ range-whole text

  pub strtab-image_layout : range (image_layout text pc) (120 + length text) 12 ≡ strtab
  strtab-image_layout =
      block-range 3 _ (120 + length text) 12 refl (omega arith) (omega arith) ∙ unfold range in refl

  pub symtab-image_layout :
      range (image_layout text pc) (136 + length text) 48
      ≡ symbol_block (entry_address pc) (length text - pc * 8)
  symtab-image_layout =
      block-range 4 _ (136 + length text) 48 refl (omega arith) (omega arith) ∙ unfold range in refl

  pub shstrtab-image_layout : range (image_layout text pc) (184 + length text) 33 ≡ shstrtab
  shstrtab-image_layout =
      block-range 5 _ (184 + length text) 33 refl (omega arith) (omega arith) ∙ unfold range in refl

  section_at :
      (i : ℕ) (b : List ℕ)
      → get_elem? (blocks text pc) (6 + i) ≡ some b
      → 224 + length text + i * 64 ≡ before (blocks text pc) (6 + i)
      → 64 ≤ length b
      → range b 0 64 ≡ b
      → section (image_layout text pc) (224 + length text) i ≡ b
  unfolding section
  section_at i b at here inside whole = block-range (6 + i) b _ 64 at here inside ∙ whole

  pub section0-image_layout : section (image_layout text pc) (224 + length text) 0 ≡ replicate 64 0
  section0-image_layout =
      section_at 0 (replicate 64 0) refl (omega arith) (omega arith) (unfold range in refl)

  pub section1-image_layout :
      section (image_layout text pc) (224 + length text) 1
      ≡ section_block (text_section (length text))
  section1-image_layout =
      section_at 1 (section_block (text_section (length text))) refl (omega arith) (omega arith)
        (section_block-whole (text_section (length text)))

  pub section2-image_layout :
      section (image_layout text pc) (224 + length text) 2
      ≡ section_block (strtab_section (120 + length text))
  section2-image_layout =
      section_at 2 (section_block (strtab_section (120 + length text))) refl (omega arith)
        (omega arith) (section_block-whole (strtab_section (120 + length text)))

  pub section3-image_layout :
      section (image_layout text pc) (224 + length text) 3
      ≡ section_block (symtab_section (136 + length text))
  section3-image_layout =
      section_at 3 (section_block (symtab_section (136 + length text))) refl (omega arith)
        (omega arith) (section_block-whole (symtab_section (136 + length text)))

  pub section4-image_layout :
      section (image_layout text pc) (224 + length text) 4
      ≡ section_block (shstrtab_section (184 + length text))
  section4-image_layout =
      section_at 4 (section_block (shstrtab_section (184 + length text))) refl (omega arith)
        (omega arith) (section_block-whole (shstrtab_section (184 + length text)))
