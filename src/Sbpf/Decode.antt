-- ===== src/Sbpf/Decode.antt =====
-- sbpf/decoder.go: slots of eight bytes to instructions.
use solanago.Base.{ℕ, zero, suc, ◌*◌, ◌/◌, ◌%◌, ◌^◌, bit_and, bit_or, ◌||◌, not}
use solanago.Base.{List, [], ◌∷◌, length, get_or, take, drop, Result, ok, err, fail_if, ◌>>=◌, ◌>>◌}
use solanago.Base.{ltb, ◌==◌, if◌then◌else◌}
use solanago.Base.Int.{ℤ, to_u32, of_u16, of_u32, of_u64}
use solanago.Base.Bytes.{get_le}
use solanago.Sbpf.Opcode.{opcode_of, same, ld_dw_imm}
use solanago.Sbpf.Instruction.{Instruction, Error, malformed_bytecode, empty_program}
use solanago.Sbpf.Instruction.{program_too_large, instruction_size, max_program_instructions}
use solanago.Sbpf.Validate.{validate_program}

-- The slice `bytes[from:from+size]`.
abbrev pub slice : List ℕ → ℕ → ℕ → List ℕ
slice bytes from size = take size (drop from bytes)

unfoldable pub decode_slot : List ℕ → Instruction
decode_slot slot = record {
  op = opcode_of (get_or slot 0 0);
  dst = bit_and (get_or slot 1 0) 0x0f;
  src = get_or slot 1 0 / 2 ^ 4;
  offset = of_u16 (get_le (slice slot 2 2));
  immediate = of_u32 (get_le (slice slot 4 4));
}

-- `int64(high | low)`, the immediate of the two slots of LD_DW_IMM.
unfoldable pub wide_immediate : Instruction → List ℕ → ℤ
wide_immediate ins continuation =
    let low = to_u32 ins.immediate in
    let high = get_le (slice continuation 4 4) * 2 ^ 32 % 2 ^ 64 in of_u64 (bit_or high low)

-- The tests on the second slot of LD_DW_IMM.
unfoldable pub check_continuation : List ℕ → Result Error (Unit {0})
check_continuation continuation = do
  fail_if (not (get_or continuation 0 0 == 0)) malformed_bytecode
  fail_if
      (not (get_or continuation 1 0 == 0)
        || not (get_or continuation 2 0 == 0)
        || not (get_or continuation 3 0 == 0))
      malformed_bytecode

-- The loop of `Decode`. The number is `len(bytecode)/InstructionSize - pc`, the slots from `pc` on,
-- and the bytes are those of these slots.
unfoldable pub decode_each : ℕ → List ℕ → Result Error (List Instruction)
decode_each zero bytes = ok []
decode_each (suc zero) bytes =
    let ins = decode_slot (slice bytes 0 8) in
    if same ins.op ld_dw_imm then err malformed_bytecode else ok (ins ∷ [])
decode_each (suc (suc left)) bytes =
    let ins = decode_slot (slice bytes 0 8) in
    let continuation = slice bytes 8 8 in
    let narrow = decode_each (suc left) (drop 8 bytes) >>= λ rest. ok (ins ∷ rest) in
    let wide = check_continuation continuation >> decode_each left (drop 16 bytes) >>= λ rest.
    ok (record ins { immediate = wide_immediate ins continuation } ∷ rest) in
    if same ins.op ld_dw_imm then wide else narrow

unfoldable pub decode : List ℕ → Result Error (List Instruction)
decode bytecode = do
  fail_if (length bytecode == 0) empty_program
  fail_if (not (length bytecode % instruction_size == 0)) malformed_bytecode
  fail_if (ltb max_program_instructions (length bytecode / instruction_size)) program_too_large
  program ← decode_each (length bytecode / instruction_size) bytecode
  validate_program program
  ok program

the_only : List Instruction → Result Error Instruction
the_only (ins ∷ []) = ok ins
the_only _ = err malformed_bytecode

-- `DecodeInstruction`.
unfoldable pub decode_instruction : List ℕ → Result Error Instruction
unfolding the_only
decode_instruction bytecode = do program ← decode bytecode; the_only program
