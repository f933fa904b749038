-- ===== src/Elf/Image.antt =====
-- What `ParseStrictV3` has checked of an image, and the machine that runs its text.
use solanago.Base.Blocks.{range}
use solanago.Base.{
  ℕ, ◌+◌, ◌-◌, ◌*◌, ◌/◌, ◌%◌, ◌^◌, ◌≤◌, ◌<◌, ◌≡◌, refl, sym, ap, ◌∙◌, Bool, true, false, not, ◌||◌,
  some, arith,
}
use solanago.Base.{List, length, drop, length-take, length-drop}
use solanago.Base.{Result, ok, err, fail_if, >>=-eq-ok, ok-injective, ltb, leb, ◌==◌}
use mathlib.Core.Path.{subst}
use solanago.Sbpf.Instruction.{Instruction, physical_pcs, instruction_size, mm_region_size}
use solanago.Sbpf.Decode.{decode}
use solanago.Sbpf.RoundTrip.{decode_facts}
use solanago.Sbpf.Targets.{instruction_at, contains-instruction_at}
use solanago.Vm.Machine.{
  Config, validate_config, build, fetch, lift, new_with_config, new_bytes_with_config,
}
use solanago.Vm.Program.{fetch-instruction_at}
use solanago.Elf.Format.{Error, Image, u16, u64, is_instruction_start, mm_bytecode_start}
use solanago.Elf.Format.{invalid_elf, invalid_entry, valid_load_segment, flag_execute}
use solanago.Elf.Labels.{validate_strict_label_sections}
use solanago.Elf.Parse.{
  verified, parse_text, parse_segment, text_header, check_header, parse_strict_v3,
}

-- The text is a range of the file, of whole slots, that decodes to a program, and an instruction of
-- the program starts at the pc of the entry, whose address the header of the file gives.
pub record IsImage (file : List ℕ) (image : Image) : Type 0 where
  pub version3 : image.version ≡ 3
  pub start : ℕ
  pub in_file : start + length image.text ≤ length file
  pub whole_slots : length image.text % 8 ≡ 0
  pub text_range : image.text ≡ range file start (length image.text)
  pub program : List Instruction
  pub decoded : decode image.text ≡ ok program
  pub entry : Instruction
  pub entry_at : instruction_at program image.entry_pc ≡ some entry
  pub entry_address : u64 file 24 ≡ 2 ^ 32 + 8 * image.entry_pc
  pub entry_in_text : 8 * image.entry_pc < length image.text

length-range :
    (bytes : List ℕ) (from size : ℕ)
    → from + size ≤ length bytes
    → length (range bytes from size) ≡ size
unfolding range
length-range bytes from size h =
    omega (arith, length-take size (drop from bytes), length-drop from bytes)

verified-ok :
    (r : Result solanago.Sbpf.Instruction.Error (List Instruction)) (p : List Instruction)
    → verified r ≡ ok p
    → r ≡ ok p
unfolding verified
verified-ok (ok q) p e = ap ok (ok-injective e)
verified-ok (err x) p e = absurd (cc e)

-- An instruction starts where the test says so.
is_instruction_start-at :
    (p : List Instruction) (pc : ℕ)
    → is_instruction_start p pc ≡ true
    → (ins : Instruction) × (instruction_at p pc ≡ some ins)
unfolding is_instruction_start physical_pcs
is_instruction_start-at p pc h =
    let same_pc : pc - 0 ≡ pc = omega arith in
    let found = contains-instruction_at 0 p pc (omega arith) h in
    (found.0, subst (λ k. instruction_at p k ≡ some found.0) same_pc found.1)

passed : (b : Bool) (e : Error) → fail_if b e ≡ ok tt → b ≡ false
passed true e h = absurd (cc h)
passed false e h = refl

not-false : (b : Bool) → not b ≡ false → b ≡ true
not-false true h = refl
not-false false h = absurd (cc h)

-- What the last steps give.
parse_text-passed :
    (file text : List ℕ) (entry : ℕ) (image : Image)
    → parse_text file text entry ≡ ok image
    → (p : List Instruction) × (decode text ≡ ok p)
      × (is_instruction_start p ((entry - mm_bytecode_start) / 8) ≡ true)
      × (image ≡ record { version = 3; entry_pc = (entry - mm_bytecode_start) / 8; text = text })
unfolding parse_text
parse_text-passed file text entry image e =
    let (_, _, e1) =
      >>=-eq-ok (validate_strict_label_sections file (u64 file 32) (u16 file 56 * 56)) _ e in
    let (p, program, e2) = >>=-eq-ok (verified (decode text)) _ e1 in
    let start = is_instruction_start p ((entry - mm_bytecode_start) / 8) in
    let (_, at_start, e3) = >>=-eq-ok (fail_if (not start) invalid_entry) _ e2 in
    (p, verified-ok _ p program, not-false start (passed _ _ at_start), sym (ok-injective e3))

segment_fits :
    (file : List ℕ) (offset size : ℕ)
    → fail_if
        (size == 0
          || not (size % 8 == 0)
          || leb mm_region_size size
          || ltb (length file) offset
          || ltb (length file - offset) size)
        invalid_elf
      ≡ ok tt
    → (offset + size ≤ length file) × (size % 8 ≡ 0)
segment_fits file offset size h = (ground arith, ground arith)

entry_fits :
    (entry size : ℕ)
    → fail_if
        (ltb entry mm_bytecode_start
          || not (entry % 8 == 0)
          || leb size (entry - mm_bytecode_start))
        invalid_entry
      ≡ ok tt
    → (2 ^ 32 ≤ entry) × (entry % 8 ≡ 0) × (entry - 2 ^ 32 < size)
entry_fits entry size h = (ground arith, ground arith, ground arith)

parse_segment-IsImage :
    (file header : List ℕ) (expected : ℕ) (image : Image)
    → parse_segment file header expected ≡ ok image
    → IsImage file image
unfolding parse_segment
parse_segment-IsImage file header expected image e =
    let offset = u64 header 8 in
    let size = u64 header 32 in
    let entry = u64 file 24 in
    let (_, _, e1) =
      >>=-eq-ok
        (fail_if (not (valid_load_segment header flag_execute mm_bytecode_start expected file))
          invalid_elf)
        _ e in
    let (_, sized, e2) =
      >>=-eq-ok
        (fail_if
          (size == 0
            || not (size % 8 == 0)
            || leb mm_region_size size
            || ltb (length file) offset
            || ltb (length file - offset) size)
          invalid_elf)
        _ e1 in
    let (_, entered, e3) =
      >>=-eq-ok
        (fail_if
          (ltb entry mm_bytecode_start
            || not (entry % 8 == 0)
            || leb size (entry - mm_bytecode_start))
          invalid_entry)
        _ e2 in
    let (fits, aligned) = segment_fits file offset size sized in
    let (above, whole, inside) = entry_fits entry size entered in
    let (p, program, at_start, same_image) =
      parse_text-passed file (range file offset size) entry image e3 in
    let (ins, at) = is_instruction_start-at p _ at_start in
    let same_length = length-range file offset size fits in
    rw same_image (record {
      version3 = refl;
      start = offset;
      in_file = omega (arith, same_length);
      whole_slots = omega (arith, same_length);
      text_range = rw same_length refl;
      program = p;
      decoded = program;
      entry = ins;
      entry_at = at;
      entry_address = omega arith;
      entry_in_text = omega (arith, same_length);
    })

-- An image that `ParseStrictV3` returns is one of the file: its text is a range of the file, of whole
-- slots, that decodes to a program, an instruction of the program starts at the pc of the entry, and
-- the header of the file gives the address of the entry.
pub parse_strict_v3-IsImage :
    (file : List ℕ) (image : Image) → parse_strict_v3 file ≡ ok image → IsImage file image
unfolding parse_strict_v3
parse_strict_v3-IsImage file image e =
    let (_, _, e1) = >>=-eq-ok (check_header file) _ e in
    let (chosen, _, e2) = >>=-eq-ok (text_header file) _ e1 in
    parse_segment-IsImage file chosen.0 chosen.1 image e2

-- The text of an image that `ParseStrictV3` returns makes a machine under every valid configuration,
-- and the machine fetches an instruction at the entry.
pub parse_strict_v3-new_bytes :
    (file : List ℕ) (image : Image) (config : Config)
    → parse_strict_v3 file ≡ ok image
    → validate_config config ≡ ok tt
    → (p : List Instruction) × (new_bytes_with_config image.text config ≡ ok (build p config))
      × (ins : Instruction) × (fetch (build p config) image.entry_pc ≡ some ins)
unfolding new_bytes_with_config new_with_config lift
parse_strict_v3-new_bytes file image config e c =
    let h = parse_strict_v3-IsImage file image e in
    let (_, _, valid) = decode_facts image.text h.program h.decoded in
    (
      h.program,
      rw (h.decoded, c, valid) refl,
      h.entry,
      fetch-instruction_at h.program config image.entry_pc ∙ h.entry_at,
    )
