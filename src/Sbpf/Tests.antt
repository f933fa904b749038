-- ===== src/Sbpf/Tests.antt =====
-- Runs of the encoder and the decoder on small programs, and the theorems at them.
use solanago.Base.{ℕ, ◌≡◌, ◌+◌, ◌^◌, refl, List, [], ◌∷◌, ok, err, ◌>>=◌, arith, All}
use solanago.Base.Int.{pos, negsuc}
use solanago.Sbpf.Opcode.{mov64_reg, add64_reg, add64_imm, same, byte_of, opcode_of, call_imm}
use solanago.Sbpf.Opcode.Names.{is_valid, opcode_name}
use solanago.Sbpf.Opcode.Classes.{
  is_memory_load, is_memory_store, is_alu_immediate, is_alu_register,
}
use solanago.Sbpf.Opcode.Classes.{is_jump_immediate, is_jump_register, is_jump}
use solanago.Sbpf.Instruction.{
  Instruction, alu_reg, alu_imm, return, load_imm64, jump, call_relative, slots, IsTyped,
}
use solanago.Sbpf.Instruction.{invalid_jump, register_is_valid, physical_pcs, pcs_from}
use solanago.Sbpf.Validate.{validate_alu_immediate, validate_operands, validate_instruction}
use solanago.Sbpf.Validate.{
  exceeds_int32, contains, validate_target, validate_each, validate_program,
}
use solanago.Sbpf.Encode.{encode_slot, encode_valid, encode_instruction, encode_each, encode}
use solanago.Sbpf.Decode.{decode_slot, wide_immediate, check_continuation, decode_each, decode}
use solanago.Sbpf.RoundTrip.{decode-encode, encode-decode}
use solanago.Base.Bytes.{IsByte}
use solanago.Base.{true, some}
use solanago.Sbpf.Targets.{instruction_at, Lands, jump-Lands, call-Lands}

-- All that a run computes with.
unfoldable pub sbpf_runs : Unit {0}
unfolding same byte_of opcode_of is_valid opcode_name is_memory_load is_memory_store
    is_alu_immediate is_alu_register is_jump_immediate is_jump_register is_jump alu_reg alu_imm
    return load_imm64 jump call_relative slots register_is_valid physical_pcs pcs_from
    validate_alu_immediate validate_operands validate_instruction exceeds_int32 contains
    validate_target validate_each validate_program encode_slot encode_valid encode_instruction
    encode_each encode decode_slot wide_immediate check_continuation decode_each decode
sbpf_runs = tt

abbrev add_program : List Instruction
add_program = alu_reg mov64_reg 0 1 ∷ alu_reg add64_reg 0 2 ∷ return ∷ []

abbrev add_bytes : List ℕ
add_bytes =
    0xbf ∷ 0x10 ∷ 0 ∷ 0 ∷ 0 ∷ 0 ∷ 0 ∷ 0 ∷ 0x0f ∷ 0x20 ∷ 0 ∷ 0 ∷ 0 ∷ 0 ∷ 0 ∷ 0 ∷ 0x95 ∷ 0 ∷ 0 ∷ 0 ∷ 0
    ∷ 0 ∷ 0 ∷ 0 ∷ []

encode_add : encode add_program ≡ ok add_bytes
unfolding sbpf_runs
encode_add = refl

decode_add : decode add_bytes ≡ ok add_program
unfolding sbpf_runs
decode_add = refl

abbrev wide_program : List Instruction
wide_program =
    load_imm64 0 (2 ^ 63 + 5) ∷ alu_imm add64_imm 0 (negsuc 0) ∷ jump (negsuc 1) ∷ return ∷ []

jump_into_wide : encode (load_imm64 0 7 ∷ jump (negsuc 1) ∷ []) ≡ err invalid_jump
unfolding sbpf_runs
jump_into_wide = refl

wide_round : (encode wide_program >>= decode) ≡ ok wide_program
unfolding sbpf_runs
wide_round = refl

wide_program_valid : validate_program wide_program ≡ ok tt
unfolding sbpf_runs
wide_program_valid = refl

wide_program-IsTyped : All IsTyped wide_program
unfolding sbpf_runs
wide_program-IsTyped = omega arith

decode-encode_example : (encode wide_program >>= decode) ≡ ok wide_program
decode-encode_example = decode-encode wide_program wide_program-IsTyped wide_program_valid

add_bytes-IsByte : All IsByte add_bytes
add_bytes-IsByte = omega arith

encode-decode_example : encode add_program ≡ ok add_bytes
encode-decode_example = encode-decode add_bytes add_program add_bytes-IsByte decode_add

abbrev caller : List Instruction
caller = jump (pos 1) ∷ return ∷ call_relative (negsuc 1) ∷ return ∷ []

caller_valid : validate_program caller ≡ ok tt
unfolding sbpf_runs
caller_valid = refl

caller-first : instruction_at caller 0 ≡ some (jump (pos 1))
unfolding sbpf_runs instruction_at
caller-first = refl

caller-third : instruction_at caller 2 ≡ some (call_relative (negsuc 1))
unfolding sbpf_runs instruction_at
caller-third = refl

first-is_jump : is_jump (jump (pos 1)).op ≡ true
unfolding sbpf_runs
first-is_jump = refl

third-is_call : same (call_relative (negsuc 1)).op call_imm ≡ true
unfolding sbpf_runs
third-is_call = refl

third-src : (call_relative (negsuc 1)).src ≡ 1
unfolding sbpf_runs
third-src = refl

jump-Lands_example : Lands caller 0 (jump (pos 1)).offset
jump-Lands_example = jump-Lands caller 0 (jump (pos 1)) caller_valid caller-first first-is_jump

call-Lands_example : Lands caller 2 (call_relative (negsuc 1)).immediate
call-Lands_example =
    call-Lands caller 2 (call_relative (negsuc 1)) caller_valid caller-third third-is_call third-src

add64_imm-is_valid : is_valid add64_imm ≡ true
unfolding sbpf_runs
add64_imm-is_valid = refl
