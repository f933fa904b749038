-- ===== src/Sbpf/Validate.antt =====
-- sbpf/instruction.go: `ValidateInstruction` and `ValidateProgram`.
pub mod Program
use solanago.Base.{ℕ, ◌+◌, ◌≡◌, Bool, true, false, ◌&&◌, ◌||◌, not, List, [], ◌∷◌}
use solanago.Base.{Result, ok, err, fail_if, ◌>>=◌, ◌>>◌, ltb, leb, ◌==◌, if◌then◌else◌, ◌^◌, ◌-◌}
use solanago.Base.Int.{ℤ, pos, negsuc, ◌+ℤ◌, ltb_ℤ, leb_ℤ, is_zero, pos_part}
use solanago.Sbpf.Opcode.{Opcode, same, ld_dw_imm, ja, call_imm, exit, neg32, neg64}
use solanago.Sbpf.Opcode.{div32_imm, mod32_imm, div64_imm, mod64_imm}
use solanago.Sbpf.Opcode.{lsh32_imm, rsh32_imm, arsh32_imm, lsh64_imm, rsh64_imm, arsh64_imm}
use solanago.Sbpf.Opcode.Names.{is_valid}
use solanago.Sbpf.Opcode.Classes.{is_alu_immediate, is_alu_register, is_jump_immediate}
use solanago.Sbpf.Opcode.Classes.{is_jump_register, is_memory_load, is_memory_store, is_jump}
use solanago.Sbpf.Instruction.{Instruction, Error, register_is_valid, frame_pointer, physical_pcs}
use solanago.Sbpf.Instruction.{malformed_bytecode, invalid_opcode, invalid_register, invalid_jump}
use solanago.Sbpf.Instruction.{division_by_zero, program_too_large, empty_program}
use solanago.Sbpf.Instruction.{max_program_instructions}

abbrev Check : Type 0
Check = Result Error (Unit {0})

-- `x < math.MinInt32 || x > math.MaxInt32`.
unfoldable pub exceeds_int32 : ℤ → Bool
exceeds_int32 x = ltb_ℤ x (negsuc (2 ^ 31 - 1)) || ltb_ℤ (pos (2 ^ 31 - 1)) x

-- The case of the immediate ALU instructions.
unfoldable pub validate_alu_immediate : Instruction → Check
validate_alu_immediate ins = do
  fail_if (not (ins.src == 0) || not (is_zero ins.offset)) malformed_bytecode
  fail_if
      ((same ins.op div32_imm
          || same ins.op mod32_imm
          || same ins.op div64_imm
          || same ins.op mod64_imm)
        && is_zero ins.immediate)
      division_by_zero
  fail_if
      ((same ins.op lsh32_imm || same ins.op rsh32_imm || same ins.op arsh32_imm)
        && (ltb_ℤ ins.immediate (pos 0) || leb_ℤ (pos 32) ins.immediate))
      malformed_bytecode
  fail_if
      ((same ins.op lsh64_imm || same ins.op rsh64_imm || same ins.op arsh64_imm)
        && (ltb_ℤ ins.immediate (pos 0) || leb_ℤ (pos 64) ins.immediate))
      malformed_bytecode

-- The `switch`, in its order; `nonCanonical` is `malformed_bytecode`.
unfoldable pub validate_operands : Instruction → Check
validate_operands ins =
    if same ins.op ld_dw_imm
    then fail_if (not (ins.src == 0) || not (is_zero ins.offset)) malformed_bytecode
    else if is_memory_load ins.op
    then fail_if (not (is_zero ins.immediate)) malformed_bytecode
    else if is_memory_store ins.op
    then fail_if (not (is_zero ins.immediate)) malformed_bytecode
    else if is_alu_immediate ins.op
    then validate_alu_immediate ins
    else if is_alu_register ins.op
    then fail_if (not (is_zero ins.offset) || not (is_zero ins.immediate)) malformed_bytecode
    else if same ins.op neg32 || same ins.op neg64
    then fail_if (not (ins.src == 0) || not (is_zero ins.offset) || not (is_zero ins.immediate))
        malformed_bytecode
    else if same ins.op ja
    then fail_if (not (ins.dst == 0) || not (ins.src == 0) || not (is_zero ins.immediate))
        malformed_bytecode
    else if is_jump_immediate ins.op
    then fail_if (not (ins.src == 0)) malformed_bytecode
    else if is_jump_register ins.op
    then fail_if (not (is_zero ins.immediate)) malformed_bytecode
    else if same ins.op call_imm
    then fail_if
        (not (ins.dst == 0)
          || not (is_zero ins.offset)
          || (not (ins.src == 0) && not (ins.src == 1)))
        malformed_bytecode
    else if same ins.op exit
    then fail_if
        (not (ins.dst == 0)
          || not (ins.src == 0)
          || not (is_zero ins.offset)
          || not (is_zero ins.immediate))
        malformed_bytecode
    else ok tt

unfoldable pub validate_instruction : Instruction → Check
validate_instruction ins = do
  fail_if (not (is_valid ins.op)) invalid_opcode
  fail_if (not (register_is_valid ins.dst)) invalid_register
  fail_if (not (register_is_valid ins.src)) invalid_register
  fail_if (ins.dst == frame_pointer && not (is_memory_store ins.op)) invalid_register
  fail_if (not (same ins.op ld_dw_imm) && exceeds_int32 ins.immediate) malformed_bytecode
  validate_operands ins

-- A lookup in the set `starts`.
unfoldable pub contains : List ℕ → ℕ → Bool
contains [] k = false
contains (j ∷ set) k = j == k || contains set k

-- The part of the loop's body below `ValidateInstruction`.
unfoldable pub validate_target : List ℕ → ℕ → ℕ → Instruction → Check
validate_target starts slot_count pc ins =
    if not (is_jump ins.op) && not (same ins.op call_imm && ins.src == 1)
    then ok tt
    else let relative = if is_jump ins.op then ins.offset else ins.immediate in
      let target = pos (pc + 1) +ℤ relative in
      do
        fail_if (ltb_ℤ target (pos 0) || leb_ℤ (pos slot_count) target) invalid_jump
        fail_if (not (contains starts (pos_part target))) invalid_jump

-- The loop over the program, beside the pcs of its instructions.
unfoldable pub validate_each : List ℕ → ℕ → List ℕ → List Instruction → Check
validate_each starts slot_count (pc ∷ pcs) (ins ∷ rest) = do
  validate_instruction ins
  validate_target starts slot_count pc ins
  validate_each starts slot_count pcs rest
validate_each starts slot_count _ _ = ok tt

unfoldable pub validate_program : List Instruction → Check
validate_program [] = err empty_program
validate_program (ins ∷ rest) =
    let (pcs, slot_count) = physical_pcs (ins ∷ rest) in
    do
      fail_if (ltb max_program_instructions slot_count) program_too_large
      validate_each pcs slot_count pcs (ins ∷ rest)
