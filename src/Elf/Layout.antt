-- ===== src/Elf/Layout.antt =====
-- The layout of the image that `BuildV3` writes, as the blocks one after the other, in the numbers of
-- the format: it shares no constant with the model of the writes.
use solanago.Base.Blocks.{join}
use solanago.Base.{ℕ, ◌+◌, ◌-◌, ◌*◌, ◌%◌, ◌≤◌, ◌<◌, ◌≡◌, refl, arith}
use solanago.Base.{List, [], ◌∷◌, ◌++◌, length, replicate}
use solanago.Base.Bits.{bit_and_7}
use solanago.Base.Bytes.{put_le}
use solanago.Base.Splice.{splice}
use solanago.Elf.Format.{align}
use solanago.Elf.Build.{write_at, SectionHeader}
use solanago.Elf.Build.{header_writes, program_header_writes, symbol_writes, section_writes}
use solanago.Elf.Build.{strtab_offset, symtab_offset, shstrtab_offset, section_offset}

-- Where the code of a program is loaded.
abbrev code_start : ℕ
code_start = 0x100000000

-- The header of the file.
abbrev pub header_block : ℕ → ℕ → List ℕ
header_block entry sections =
    (0x7f ∷ 0x45 ∷ 0x4c ∷ 0x46 ∷ 2 ∷ 1 ∷ 1 ∷ 0 ∷ [])
    ++ replicate 8 0
    ++ put_le 2 3
    ++ put_le 2 247
    ++ put_le 4 1
    ++ put_le 8 entry
    ++ put_le 8 64
    ++ put_le 8 sections
    ++ put_le 4 3
    ++ put_le 2 64
    ++ put_le 2 56
    ++ put_le 2 1
    ++ put_le 2 64
    ++ put_le 2 5
    ++ put_le 2 4

abbrev pub program_header_block : ℕ → List ℕ
program_header_block size =
    put_le 4 1
    ++ put_le 4 1
    ++ put_le 8 120
    ++ put_le 8 code_start
    ++ put_le 8 code_start
    ++ put_le 8 size
    ++ put_le 8 size
    ++ put_le 8 8

-- The null symbol, and that of the entry.
abbrev pub symbol_block : ℕ → ℕ → List ℕ
symbol_block entry size =
    replicate 24 0 ++ put_le 4 1 ++ (0x12 ∷ 0 ∷ []) ++ put_le 2 1 ++ put_le 8 entry ++ put_le 8 size

-- A section's header, by its ten fields in their order.
abbrev pub section_fields : ℕ → ℕ → ℕ → ℕ → ℕ → ℕ → ℕ → ℕ → ℕ → ℕ → List ℕ
section_fields name kind flags address offset size link info alignment entry_size =
    put_le 4 name
    ++ put_le 4 kind
    ++ put_le 8 flags
    ++ put_le 8 address
    ++ put_le 8 offset
    ++ put_le 8 size
    ++ put_le 4 link
    ++ put_le 4 info
    ++ put_le 8 alignment
    ++ put_le 8 entry_size

abbrev pub section_block : SectionHeader → List ℕ
section_block h =
    section_fields h.name h.kind h.flags h.address h.offset h.size h.link h.info h.alignment
      h.entry_size

-- The names of the sections, each behind a zero: .text, .symtab, .strtab and .shstrtab.
abbrev pub section_names : List ℕ
section_names =
    0 ∷ 46 ∷ 116 ∷ 101 ∷ 120 ∷ 116 ∷ 0 ∷ 46 ∷ 115 ∷ 121 ∷ 109 ∷ 116 ∷ 97 ∷ 98 ∷ 0 ∷ 46 ∷ 115 ∷ 116
    ∷ 114 ∷ 116 ∷ 97 ∷ 98 ∷ 0 ∷ 46 ∷ 115 ∷ 104 ∷ 115 ∷ 116 ∷ 114 ∷ 116 ∷ 97 ∷ 98 ∷ 0 ∷ []

-- The name of the one symbol: entrypoint.
abbrev pub symbol_names : List ℕ
symbol_names = 0 ∷ 101 ∷ 110 ∷ 116 ∷ 114 ∷ 121 ∷ 112 ∷ 111 ∷ 105 ∷ 110 ∷ 116 ∷ 0 ∷ []

abbrev pub entry_address : ℕ → ℕ
entry_address pc = code_start + pc * 8

abbrev pub blocks : List ℕ → ℕ → List (List ℕ)
blocks text pc =
    let size = length text in
    header_block (entry_address pc) (224 + size)
    ∷ program_header_block size
    ∷ text
    ∷ (symbol_names ++ replicate 4 0)
    ∷ symbol_block (entry_address pc) (size - pc * 8)
    ∷ (section_names ++ replicate 7 0)
    ∷ replicate 64 0
    ∷ section_fields 1 1 6 code_start 120 size 0 0 8 0
    ∷ section_fields 15 3 0 0 (120 + size) 12 0 0 1 0
    ∷ section_fields 7 2 0 0 (136 + size) 48 2 1 8 24
    ∷ section_fields 23 3 0 0 (184 + size) 33 0 0 1 0
    ∷ []

unfoldable pub image_layout : List ℕ → ℕ → List ℕ
image_layout text pc = join (blocks text pc)

align-8 : (n m : ℕ) → m % 8 ≡ 0 → n ≤ m → m < n + 8 → align n 8 ≡ m
unfolding align
align-8 n m h low high = omega (arith, bit_and_7 (n + 8 - 1))

module _ (size : ℕ) (whole : size % 8 ≡ 0) where
  pub strtab_offset-at : strtab_offset size ≡ 120 + size
  unfolding strtab_offset
  strtab_offset-at = align-8 (120 + size) (120 + size) (omega arith) (omega arith) (omega arith)

  pub symtab_offset-at : symtab_offset size ≡ 136 + size
  unfolding symtab_offset
  symtab_offset-at =
      align-8 (strtab_offset size + 12) (136 + size) (omega arith) (omega (arith, strtab_offset-at))
        (omega (arith, strtab_offset-at))

  pub shstrtab_offset-at : shstrtab_offset size ≡ 184 + size
  unfolding shstrtab_offset
  shstrtab_offset-at = omega (arith, symtab_offset-at)

  pub section_offset-at : section_offset size ≡ 224 + size
  unfolding section_offset
  section_offset-at =
      align-8 (shstrtab_offset size + 33) (224 + size) (omega arith)
        (omega (arith, shstrtab_offset-at)) (omega (arith, shstrtab_offset-at))

-- What the writes make of blank blocks.
pub header-written :
    (entry sections : ℕ)
    → write_at (replicate 64 0) 0 (header_writes entry sections) ≡ header_block entry sections
unfolding splice
header-written entry sections = refl

pub program_header-written :
    (size : ℕ)
    → write_at (replicate 56 0) 0 (program_header_writes size) ≡ program_header_block size
unfolding splice
program_header-written size = refl

pub symbol-written :
    (entry size : ℕ)
    → write_at (replicate 48 0) 24 (symbol_writes entry size) ≡ symbol_block entry size
unfolding splice
symbol-written entry size = refl

pub section-written :
    (h : SectionHeader) → write_at (replicate 64 0) 0 (section_writes h) ≡ section_block h
unfolding splice
section-written h = refl
