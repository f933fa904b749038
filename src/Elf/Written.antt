-- ===== src/Elf/Written.antt =====
-- The writes of `BuildV3` give the layout of the image.
use solanago.Base.Blocks.{splice-whole, splice_written, before, join}
use solanago.Base.{ℕ, zero, suc, ◌+◌, ◌-◌, ◌*◌, ◌%◌, ◌≡◌, refl, ap, ◌∙◌, true, some, arith}
use solanago.Base.{List, [], ◌∷◌, ◌++◌, length, get_elem?, set, replicate, length-replicate}
use solanago.Base.Splice.{splice}
use solanago.Elf.Build.{
  Write, write_at, SectionHeader, text_section, strtab_section, symtab_section, shstrtab_section,
}
use solanago.Elf.Build.{
  shstrtab, strtab, header_writes, program_header_writes, symbol_writes, section_writes,
}
use solanago.Elf.Build.{write_image}
use solanago.Elf.Blocks.{fits, write_at-join}
use solanago.Elf.Layout.{
  header_block, program_header_block, symbol_block, section_block, entry_address, image_layout,
}
use solanago.Elf.Layout.{header-written, program_header-written, symbol-written, section-written}
use solanago.Elf.Layout.{strtab_offset-at, symtab_offset-at, shstrtab_offset-at, section_offset-at}

-- Writes inside one block, whose outcome on the block is known.
block_written :
    (bytes : List ℕ) (s : List (List ℕ)) (i : ℕ) (b b' : List ℕ) (start offset : ℕ)
    (ws : List Write)
    → bytes ≡ join s
    → get_elem? s i ≡ some b
    → start ≡ before s i + offset
    → fits (length b) offset ws ≡ true
    → write_at b offset ws ≡ b'
    → write_at bytes start ws ≡ join (set s i b')
block_written bytes s i b b' start offset ws e at here inside result =
    ap (λ l. write_at l start ws) e
    ∙ write_at-join ws s i b start offset at here inside
    ∙ ap (λ c. join (set s i c)) result

replicate-append : (a b : ℕ) → replicate {A = ℕ} (a + b) 0 ≡ replicate a 0 ++ replicate b 0
replicate-append zero b = let e : 0 + b ≡ b = omega arith in rw e
replicate-append (suc a) b =
    let e : suc a + b ≡ suc (a + b) = omega arith in rw e (ap (λ l. 0 ∷ l) (replicate-append a b))

strtab-written : splice (replicate 16 0) 0 strtab ≡ strtab ++ replicate 4 0
unfolding splice
strtab-written = refl

shstrtab-written : splice (replicate 40 0) 0 shstrtab ≡ shstrtab ++ replicate 7 0
unfolding splice
shstrtab-written = refl

-- A section header written into its blank block.
section_written :
    (bytes : List ℕ) (s : List (List ℕ)) (i start : ℕ) (h : SectionHeader)
    → bytes ≡ join s
    → get_elem? s i ≡ some (replicate 64 0)
    → start ≡ before s i
    → write_at bytes start (section_writes h) ≡ join (set s i (section_block h))
section_written bytes s i start h e at here =
    block_written bytes s i _ _ start 0 (section_writes h) e at (omega arith) refl
      (section-written h)

abbrev blank : ℕ → List (List ℕ)
blank size =
    replicate 64 0
    ∷ replicate 56 0
    ∷ replicate size 0
    ∷ replicate 16 0
    ∷ replicate 48 0
    ∷ replicate 40 0
    ∷ replicate 64 0
    ∷ replicate 64 0
    ∷ replicate 64 0
    ∷ replicate 64 0
    ∷ replicate 64 0
    ∷ []

blank-join : (size : ℕ) → replicate (224 + size + 5 * 64) 0 ≡ join (blank size)
blank-join size =
    let e : 224 + size + 5 * 64 ≡ 120 + (size + 424) = omega arith in
    rw (e, replicate-append 120 (size + 424), replicate-append size 424) refl

module _ (text : List ℕ) (pc : ℕ) where
  abbrev headed : List (List ℕ)
  headed = set (blank (length text)) 0 (header_block (entry_address pc) (224 + length text))

  abbrev loaded : List (List ℕ)
  loaded = set headed 1 (program_header_block (length text))

  abbrev filled : List (List ℕ)
  filled = set (set (set loaded 2 text) 3 (strtab ++ replicate 4 0)) 5 (shstrtab ++ replicate 7 0)

  loaded-join :
      write_at
        (write_at
          (replicate (224 + length text + 5 * 64) 0)
          0
          (header_writes (entry_address pc) (224 + length text)))
        64
        (program_header_writes (length text))
      ≡ join loaded
  loaded-join =
      block_written _ headed 1 _ _ 64 0 (program_header_writes (length text))
        (block_written _ (blank (length text)) 0 _ _ 0 0
          (header_writes (entry_address pc) (224 + length text)) (blank-join (length text)) refl
          refl refl (header-written (entry_address pc) (224 + length text)))
        refl refl refl (program_header-written (length text))

  filled-join :
      (bytes : List ℕ)
      → bytes ≡ join loaded
      → write_at bytes 0
          ((120, text) ∷ (120 + length text, strtab) ∷ (184 + length text, shstrtab) ∷ [])
        ≡ join filled
  filled-join bytes e =
      splice_written _ (set (set loaded 2 text) 3 (strtab ++ replicate 4 0)) 5 _ _ _ shstrtab
        (splice_written _ (set loaded 2 text) 3 _ _ _ strtab
          (splice_written bytes loaded 2 _ _ _ text e refl refl
            (omega (arith, length-replicate (length text) zero))
            (splice-whole _ text (length-replicate (length text) zero)))
          refl (omega arith) (omega arith) strtab-written)
        refl (omega arith) (omega arith) shstrtab-written

  abbrev sections_written : List ℕ → List ℕ
  sections_written bytes =
      let size = length text in
      let named =
        write_at bytes (136 + size + 24) (symbol_writes (entry_address pc) (size - pc * 8)) in
      let first = write_at named (224 + size + 64) (section_writes (text_section size)) in
      let second =
        write_at first (224 + size + 2 * 64) (section_writes (strtab_section (120 + size))) in
      let third =
        write_at second (224 + size + 3 * 64) (section_writes (symtab_section (136 + size))) in
      write_at third (224 + size + 4 * 64) (section_writes (shstrtab_section (184 + size)))

  sections-join :
      (bytes : List ℕ) → bytes ≡ join filled → sections_written bytes ≡ image_layout text pc
  unfolding image_layout
  sections-join bytes e =
      let size = length text in
      let named = set filled 4 (symbol_block (entry_address pc) (size - pc * 8)) in
      let first = set named 7 (section_block (text_section size)) in
      let second = set first 8 (section_block (strtab_section (120 + size))) in
      let third = set second 9 (section_block (symtab_section (136 + size))) in
      section_written _ third 10 _ (shstrtab_section (184 + size))
        (section_written _ second 9 _ (symtab_section (136 + size))
          (section_written _ first 8 _ (strtab_section (120 + size))
            (section_written _ named 7 _ (text_section size)
              (block_written bytes filled 4 _ _ _ 24
                (symbol_writes (entry_address pc) (size - pc * 8)) e refl (omega arith) refl
                (symbol-written (entry_address pc) (size - pc * 8)))
              refl (omega arith))
            refl (omega arith))
          refl (omega arith))
        refl (omega arith)

  -- What `BuildV3` writes is the layout of the image, for a text of whole slots.
  pub write_image-image_layout : length text % 8 ≡ 0 → write_image text pc ≡ image_layout text pc
  unfolding write_image
  write_image-image_layout whole =
      rw
        (
          section_offset-at (length text) whole,
          shstrtab_offset-at (length text) whole,
          symtab_offset-at (length text) whole,
          strtab_offset-at (length text) whole,
        )
        (sections-join _ (filled-join _ loaded-join))
