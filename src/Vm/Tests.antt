-- ===== src/Vm/Tests.antt =====
-- Runs of the interpreter, after vm/vm_test.go.
use solanago.Base.{◌≡◌, ◌-◌, ◌^◌, refl, List, [], ◌∷◌, Option, some}
use solanago.Base.{ok, err}
use solanago.Base.Int.{pos, negsuc}
use solanago.Sbpf.Opcode.{Opcode, mov64_reg, mov64_imm, sub64_reg, div64_reg}
use solanago.Sbpf.Opcode.{jlt64_reg, jslt64_reg, same, byte_of}
use solanago.Sbpf.Opcode.Names.{is_valid, opcode_name}
use solanago.Sbpf.Opcode.Classes.{
  is_memory_load, is_memory_store, is_alu_immediate, is_alu_register,
}
use solanago.Sbpf.Opcode.Classes.{is_jump_immediate, is_jump_register, is_jump}
use solanago.Sbpf.Instruction.{Instruction, alu_reg, alu_imm, return, load_imm64, jump, slots}
use solanago.Sbpf.Instruction.{register_is_valid, physical_pcs, pcs_from, jump_reg, call_relative}
use solanago.Sbpf.Instruction.{load_memory, store_memory, memory_type, width_of}
use solanago.Sbpf.Validate.{validate_alu_immediate, validate_operands, validate_instruction}
use solanago.Sbpf.Validate.{
  exceeds_int32, contains, validate_target, validate_each, validate_program,
}
use solanago.Vm.Errors.{division_by_zero, stack_overflow, instruction_limit}
use solanago.Base.Sort.{insert_by, sort_by}
use solanago.Vm.Memory
use solanago.Base.Splice.{splice}
use solanago.Vm.Memory.{check_region, check_regions, sort_regions, check_gaps}
use solanago.Vm.Memory.{
  check_disjoint, validate_memory_regions, find_region, memory_range, read_place,
}
use solanago.Vm.Memory.{write_place, decode_value, encode_value, read_only_region}
use solanago.Vm.Memory.{writable_region, MemoryRegion}
use solanago.Vm.Effect.{effect, alu32, alu64, jump32, jump64, sign_extend32, add_signed_offset}
use solanago.Vm.Machine.{Config, Vm, build, index_pcs, lookup_pc, fetch}
use solanago.Vm.Step.{step, run_instruction, run_effect, run_store, run_load, set_dst, return_from}
use solanago.Vm.Step.{restore_callee_saved, call_function, advance}
use solanago.Vm.Run.{
  execute, set_arguments, start_state, fuel_of, allocates, run_regions, run, run_with_memory,
}

-- All that a run computes with.
unfoldable pub vm_runs : Unit {0}
unfolding same byte_of is_valid opcode_name is_memory_load is_memory_store is_alu_immediate
    is_alu_register is_jump_immediate is_jump_register is_jump alu_reg alu_imm return load_imm64
    jump slots register_is_valid physical_pcs pcs_from jump_reg call_relative load_memory
    store_memory memory_type width_of validate_alu_immediate validate_operands validate_instruction
    exceeds_int32 contains validate_target validate_each validate_program check_region check_regions
    insert_by sort_by sort_regions check_gaps check_disjoint validate_memory_regions find_region
    memory_range read_place splice write_place decode_value encode_value read_only_region
    writable_region Memory.load_memory Memory.store_memory effect alu32 alu64 jump32 jump64
    sign_extend32 add_signed_offset build index_pcs lookup_pc fetch step run_instruction run_effect
    run_store run_load set_dst return_from restore_callee_saved call_function advance execute
    set_arguments start_state fuel_of allocates run_regions run run_with_memory
vm_runs = tt

abbrev small : Config
small = record { max_instructions = pos 20; max_call_depth = pos 3; stack_frame_size = pos 16 }

abbrev machine_of : List Instruction → Option Vm
machine_of program = some (build program small)

abbrev binary : Opcode → List Instruction
binary op = alu_reg mov64_reg 0 1 ∷ alu_reg op 0 2 ∷ return ∷ []

sub_wraps : run (machine_of (binary sub64_reg)) (0 ∷ 1 ∷ []) ≡ some (ok (2 ^ 64 - 1))
unfolding vm_runs
sub_wraps = refl

div_by_zero : run (machine_of (binary div64_reg)) (7 ∷ 0 ∷ []) ≡ some (err division_by_zero)
unfolding vm_runs
div_by_zero = refl

-- `JumpReg` skips the return of 0.
abbrev less : Opcode → List Instruction
less op =
    alu_imm mov64_imm 0 (pos 0)
    ∷ jump_reg op 1 2 (pos 1)
    ∷ return
    ∷ alu_imm mov64_imm 0 (pos 1)
    ∷ return
    ∷ []

unsigned_less : run (machine_of (less jlt64_reg)) (2 ∷ 3 ∷ []) ≡ some (ok 1)
unfolding vm_runs
unsigned_less = refl

signed_less : run (machine_of (less jslt64_reg)) (2 ∷ (2 ^ 64 - 1) ∷ []) ≡ some (ok 0)
unfolding vm_runs
signed_less = refl

spin : run (machine_of (jump (negsuc 0) ∷ return ∷ [])) [] ≡ some (err instruction_limit)
unfolding vm_runs
spin = refl

endless_call :
    run (machine_of (call_relative (negsuc 0) ∷ return ∷ [])) [] ≡ some (err stack_overflow)
unfolding vm_runs
endless_call = refl

-- The callee changes r6, and the caller has its own again.
saved :
    run
      (machine_of (
        alu_imm mov64_imm 6 (pos 5)
        ∷ call_relative (pos 2)
        ∷ alu_reg mov64_reg 0 6
        ∷ return
        ∷ alu_imm mov64_imm 6 (pos 9)
        ∷ return
        ∷ []))
      []
    ≡ some (ok 5)
unfolding vm_runs
saved = refl
