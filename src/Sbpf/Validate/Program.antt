-- ===== src/Sbpf/Validate/Program.antt =====
-- What `validate_program` has checked: each instruction at its pc.
use solanago.Base.{ℕ, ◌+◌, ◌≤◌, ◌<◌, ◌≡◌, refl, true, false, List, [], ◌∷◌, Result, ok, err, arith}
use mathlib.Core.Path.{subst}
use solanago.Base.{ltb, fail_if, ◌>>◌, length}
use solanago.Base.Int.{IsInt32}
use solanago.Sbpf.Opcode.{same, ld_dw_imm}
use solanago.Sbpf.Opcode.Names.{is_valid}
use solanago.Sbpf.Opcode.Classes.{is_memory_store}
use solanago.Sbpf.Instruction.{
  Instruction, Error, slots, pcs_from, physical_pcs, register_is_valid, program_too_large,
}
use solanago.Sbpf.Validate.{validate_instruction, validate_target, validate_each, validate_program}
use solanago.Sbpf.Validate.{exceeds_int32}

-- The slots that a program takes.
abbrev pub slot_total : List Instruction → ℕ
slot_total [] = 0
slot_total (ins ∷ rest) = slots ins + slot_total rest

pub pcs_from-total : (pc : ℕ) (p : List Instruction) → (pcs_from pc p).1 ≡ pc + slot_total p
unfolding pcs_from
pcs_from-total pc [] = omega arith
pcs_from-total pc (ins ∷ rest) = omega (arith, pcs_from-total (pc + slots ins) rest)

-- Each instruction of a program that stands at `pc` passed both checks.
abbrev pub Checked : List ℕ → ℕ → ℕ → List Instruction → Type 0
Checked starts n pc [] = Unit {0}
Checked starts n pc (ins ∷ rest) =
    (validate_instruction ins ≡ ok tt)
    × (validate_target starts n pc ins ≡ ok tt)
    × Checked starts n (pc + slots ins) rest

then_ok {ℓ} :
    {E : Type ℓ} (m k : Result E (Unit {0})) → (m >> k) ≡ ok tt → (m ≡ ok tt) × (k ≡ ok tt)
then_ok (ok tt) k h = (refl, h)
then_ok (err e) k h = cc

validate_each-Checked :
    (starts : List ℕ) (n pc : ℕ) (p : List Instruction)
    → validate_each starts n (pcs_from pc p).0 p ≡ ok tt
    → Checked starts n pc p
unfolding validate_each pcs_from
validate_each-Checked starts n pc [] h = tt
validate_each-Checked starts n pc (ins ∷ rest) h =
    let (first, more) = then_ok _ _ h in
    let (second, others) = then_ok _ _ more in
    (first, second, validate_each-Checked starts n (pc + slots ins) rest others)

-- A program that passes has from 1 to 65,536 slots, and each instruction at its pc passed.
pub record IsChecked (p : List Instruction) : Type 0 where
  pub nonempty : 0 < length p
  pub small : slot_total p ≤ 65536
  pub each : Checked (pcs_from 0 p).0 (slot_total p) 0 p

pub validate_program-IsChecked : (p : List Instruction) → validate_program p ≡ ok tt → IsChecked p
unfolding validate_program physical_pcs
validate_program-IsChecked [] h = cc
validate_program-IsChecked (ins ∷ rest) h =
    let (size, each) =
      then_ok (fail_if (ltb 65536 walk.1) program_too_large)
        (validate_each walk.0 walk.1 walk.0 (ins ∷ rest)) h in
    record {
      nonempty = omega arith;
      small = omega (arith, within _ _ size, total);
      each =
          subst (λ n. Checked walk.0 n 0 (ins ∷ rest)) total
            (validate_each-Checked walk.0 walk.1 0 (ins ∷ rest) each);
    }
  where
    walk : List ℕ × ℕ
    walk = pcs_from 0 (ins ∷ rest)

    total : (pcs_from 0 (ins ∷ rest)).1 ≡ slot_total (ins ∷ rest)
    total = omega (arith, pcs_from-total 0 (ins ∷ rest))

    within : (n : ℕ) (e : Error) → fail_if (ltb 65536 n) e ≡ ok tt → n ≤ 65536
    within n e q = ground arith

pub record IsValid (ins : Instruction) : Type 0 where
  pub named : is_valid ins.op ≡ true
  pub dst_register : ins.dst < 11
  pub src_register : ins.src < 11
  pub writable : is_memory_store ins.op ≡ false → ins.dst < 10
  pub encodable : same ins.op ld_dw_imm ≡ false → IsInt32 ins.immediate

pub validate_instruction-IsValid :
    (ins : Instruction) → validate_instruction ins ≡ ok tt → IsValid ins
unfolding validate_instruction register_is_valid exceeds_int32
validate_instruction-IsValid ins h = record {
  named = ground arith;
  dst_register = ground arith;
  src_register = ground arith;
  writable = ground arith;
  encodable = ground arith;
}
