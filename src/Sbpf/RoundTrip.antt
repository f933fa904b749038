-- ===== src/Sbpf/RoundTrip.antt =====
-- `encode` and `decode` undo each other, on every program and on every byte string.
use solanago.Base.{ℕ, ◌*◌, ◌/◌, ◌%◌, ◌<◌, ◌≡◌, refl, ap, ◌∙◌, false, arith}
use mathlib.Core.Path.{subst}
use solanago.Base.{List, [], ◌∷◌, length, All, length-append, Bool-cases, inl, inr}
use solanago.Base.{ok, ◌>>=◌, fail_if, not, ltb, ◌==◌, >>=-eq-ok}
use solanago.Base.{ok-injective}
use solanago.Sbpf.Accepted.{layout-decode_each}
use solanago.Base.Bytes.{IsByte}
use solanago.Sbpf.Opcode.{same, ld_dw_imm}
use solanago.Sbpf.Instruction.{Instruction, Error, IsTyped, slots}
use solanago.Sbpf.Instruction.{empty_program, malformed_bytecode, program_too_large}
use solanago.Sbpf.Validate.{validate_program}
use solanago.Sbpf.Validate.Program.{slot_total, IsChecked, validate_program-IsChecked}
use solanago.Sbpf.Encode.{encode_slot, encode_valid, encode}
use solanago.Sbpf.Decode.{decode_each, decode}
use solanago.Sbpf.Layout.{layout, encode_each-layout, decode_each-layout, encode_valid-narrow}
use solanago.Sbpf.Layout.{encode_valid-wide, slots-narrow, slots-wide}

length-encode_valid : (ins : Instruction) → length (encode_valid ins) ≡ 8 * slots ins
unfolding encode_slot
length-encode_valid ins = elim (Bool-cases (same ins.op ld_dw_imm)) [
  | inl h ↦ rw (encode_valid-wide ins h, slots-wide ins h)
  | inr h ↦ rw (encode_valid-narrow ins h, slots-narrow ins h)
]

pub length-layout : (p : List Instruction) → length (layout p) ≡ 8 * slot_total p
length-layout [] = refl
length-layout (ins ∷ rest) =
    length-append (encode_valid ins) (layout rest)
    ∙ omega (arith, length-encode_valid ins, length-layout rest)

pub slots_pos : (ins : Instruction) → 0 < slots ins
slots_pos ins = elim (Bool-cases (same ins.op ld_dw_imm)) [
  | inl h ↦ omega (arith, slots-wide ins h)
  | inr h ↦ omega (arith, slots-narrow ins h)
]

slot_total_pos : (p : List Instruction) → 0 < length p → 0 < slot_total p
slot_total_pos [] h = absurd (omega arith)
slot_total_pos (ins ∷ rest) h = omega (arith, slots_pos ins)

-- A program that passes `validate_program` is written as its layout.
pub encode-layout : (p : List Instruction) → validate_program p ≡ ok tt → encode p ≡ ok (layout p)
unfolding encode
encode-layout p v = rw v (encode_each-layout _ _ 0 p (validate_program-IsChecked p v).each)

decode-layout :
    (p : List Instruction) → All IsTyped p → validate_program p ≡ ok tt → decode (layout p) ≡ ok p
unfolding decode
decode-layout p t v = rw (length-layout p, empty, whole, count, small, each, v)
  where
    checked : IsChecked p
    checked = validate_program-IsChecked p v

    empty : (8 * slot_total p == 0) ≡ false
    empty = ground (arith, slot_total_pos p checked.nonempty)

    whole : 8 * slot_total p % 8 ≡ 0
    whole = omega arith

    count : 8 * slot_total p / 8 ≡ slot_total p
    count = omega arith

    small : ltb 65536 (slot_total p) ≡ false
    small = ground (arith, checked.small)

    each : decode_each (slot_total p) (layout p) ≡ ok p
    each = decode_each-layout _ _ 0 p t checked.each

-- A program that passes `validate_program`, with every field within its Go type, is encoded, and
-- decoding the bytes gives the program back.
pub decode-encode :
    (p : List Instruction)
    → All IsTyped p
    → validate_program p ≡ ok tt
    → (encode p >>= decode) ≡ ok p
decode-encode p t v = rw (encode-layout p v) (decode-layout p t v)

-- What a successful `decode` has checked.
pub decode_facts :
    (bytes : List ℕ) (p : List Instruction)
    → decode bytes ≡ ok p
    → (length bytes % 8 ≡ 0)
      × (decode_each (length bytes / 8) bytes ≡ ok p)
      × (validate_program p ≡ ok tt)
unfolding decode
decode_facts bytes p e =
    let (_, _, e1) = >>=-eq-ok (fail_if (length bytes == 0) empty_program) _ e in
    let (_, aligned, e2) =
      >>=-eq-ok (fail_if (not (length bytes % 8 == 0)) malformed_bytecode) _ e1 in
    let (_, _, e3) = >>=-eq-ok (fail_if (ltb 65536 (length bytes / 8)) program_too_large) _ e2 in
    let (q, each, e4) = >>=-eq-ok (decode_each (length bytes / 8) bytes) _ e3 in
    let (_, valid, same_program) = >>=-eq-ok (validate_program q) _ e4 in
    (
      multiple (length bytes % 8) malformed_bytecode aligned,
      each ∙ same_program,
      subst (λ r. validate_program r ≡ ok tt) (ok-injective same_program) valid,
    )
  where
    multiple : (n : ℕ) (x : Error) → fail_if (not (n == 0)) x ≡ ok tt → n ≡ 0
    multiple n x h = ground arith

-- Bytes that `decode` accepts are the bytes that `encode` writes for the decoded program.
pub encode-decode :
    (bytes : List ℕ) (p : List Instruction)
    → All IsByte bytes
    → decode bytes ≡ ok p
    → encode p ≡ ok bytes
encode-decode bytes p b e =
    let (aligned, each, valid) = decode_facts bytes p e in
    encode-layout p valid
    ∙ ap ok (layout-decode_each (length bytes / 8) bytes p (omega arith) b each)
