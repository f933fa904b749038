-- ===== src/Elf/RoundTrip.antt =====
-- `BuildV3` and `ParseStrictV3` together.
use solanago.Base.{
  Result, err, if◌then◌else◌, ℕ, ◌+◌, ◌*◌, ◌%◌, ◌^◌, ◌<◌, ◌≡◌, refl, sym, ap, ◌∙◌, true, false,
  ◌==◌, leb, Bool-cases, inl, inr, arith,
}
use solanago.Base.{List, [], ◌∷◌, length, All, ok, ok-injective}
use solanago.Base.Bytes.{IsByte}
use solanago.Sbpf.Instruction.{Instruction, slots, pcs_from, physical_pcs}
use solanago.Sbpf.Decode.{decode}
use solanago.Sbpf.Validate.{contains}
use solanago.Sbpf.Validate.Program.{slot_total, validate_program-IsChecked, pcs_from-total}
use solanago.Sbpf.RoundTrip.{decode_facts, encode-decode, encode-layout, length-layout, slots_pos}
use solanago.Elf.Format.{Error, invalid_text, invalid_entry, is_instruction_start}
use solanago.Elf.Build.{decode_text, build_v3}
use solanago.Elf.Parse.{parse_strict_v3}
use solanago.Elf.Layout.{image_layout}
use solanago.Elf.Written.{write_image-image_layout}
use solanago.Elf.Accepts.{parse_strict_v3-image_layout}

-- Bytes that decode are eight for each slot.
length-decoded :
    (text : List ℕ) (p : List Instruction)
    → All IsByte text
    → decode text ≡ ok p
    → length text ≡ 8 * slot_total p
length-decoded text p b e =
    let (_, _, valid) = decode_facts text p e in
    ap length (ok-injective (sym (encode-decode text p b e) ∙ encode-layout p valid))
    ∙ length-layout p

-- The starts of a program lie below its slots.
contains-below :
    (start : ℕ) (p : List Instruction) (pc : ℕ)
    → contains (pcs_from start p).0 pc ≡ true
    → pc < start + slot_total p
unfolding contains pcs_from
contains-below start [] pc h = absurd (cc h)
contains-below start (ins ∷ rest) pc h = elim (Bool-cases (start == pc)) [
  | inl here ↦ let at : start ≡ pc = ground arith in omega (arith, slots_pos ins)
  | inr other ↦
      let later : contains (pcs_from (start + slots ins) rest).0 pc ≡ true = rw other at h in
      omega (arith, contains-below (start + slots ins) rest pc later)
]

-- Of a text of bytes that decodes to a program, and a pc where an instruction of the program starts,
-- `BuildV3` makes a file, which is the layout of the image, and from which `ParseStrictV3` gives the
-- text and the pc back.
pub parse_strict_v3-build_v3 :
    (text : List ℕ) (p : List Instruction) (pc : ℕ)
    → All IsByte text
    → decode text ≡ ok p
    → is_instruction_start p pc ≡ true
    → (build_v3 text pc ≡ ok (image_layout text pc))
      × (parse_strict_v3 (image_layout text pc)
          ≡ ok (record { version = 3; entry_pc = pc; text = text }))
unfolding build_v3 decode_text is_instruction_start physical_pcs
parse_strict_v3-build_v3 text p pc b e starts =
    let (_, _, valid) = decode_facts text p e in
    let sized = length-decoded text p b e in
    let checked = validate_program-IsChecked p valid in
    let below = contains-below 0 p pc starts in
    let inside : pc * 8 < length text = omega arith in
    let small : length text < 2 ^ 32 = omega (arith, checked.small) in
    let whole : length text % 8 ≡ 0 = omega arith in
    let parsed = parse_strict_v3-image_layout text pc whole (omega arith) small inside p e starts in
    let in_slots : leb (pcs_from 0 p).1 pc ≡ false = ground (arith, pcs_from-total 0 p) in
    (rw (e, in_slots, starts, write_image-image_layout text pc whole, parsed) refl, parsed)

-- What `BuildV3` returns, by the verdict of sbpf on the text.
abbrev pub built :
    Result solanago.Sbpf.Instruction.Error (List Instruction) → List ℕ → ℕ → Result Error (List ℕ)
built (err e) text pc = err (invalid_text e)
built (ok p) text pc =
    if is_instruction_start p pc then ok (image_layout text pc) else err invalid_entry

build_v3-by :
    (text : List ℕ) (pc : ℕ) (verdict : Result solanago.Sbpf.Instruction.Error (List Instruction))
    → All IsByte text
    → decode text ≡ verdict
    → build_v3 text pc ≡ built verdict text pc
unfolding build_v3 decode_text
build_v3-by text pc (err e) b d = rw d
build_v3-by text pc (ok p) b d = elim (Bool-cases (is_instruction_start p pc)) [
  | inl starts ↦
      let made = (parse_strict_v3-build_v3 text p pc b d starts).0 in
      rw starts (unfold build_v3 decode_text in made)
  | inr other ↦ rw (d, other) (ground arith)
]

-- For every text of bytes, `BuildV3` wraps the error of sbpf if the text does not decode, refuses a pc
-- where no instruction starts, and otherwise returns the layout of the image, so that its own parser
-- never refuses what it wrote.
pub build_v3-built :
    (text : List ℕ) (pc : ℕ) → All IsByte text → build_v3 text pc ≡ built (decode text) text pc
build_v3-built text pc b = build_v3-by text pc (decode text) b refl
