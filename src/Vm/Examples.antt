-- ===== src/Vm/Examples.antt =====
-- Uses of the theorems of the interpreter at concrete programs and memories.
use solanago.Base.{ℕ, ◌+◌, ◌%◌, ◌^◌, ◌≡◌, refl, true, List, [], ◌∷◌, some, Result, ok, arith, inl}
use solanago.Base.Int.{pos}
use solanago.Sbpf.Opcode.{mov64_imm, mov64_reg, add64_reg}
use solanago.Sbpf.Instruction.{
  Instruction, alu_reg, alu_imm, return, call_relative, load_imm64, mm_stack_start, memory_word,
  memory_byte, memory_half, width_of,
}
use solanago.Sbpf.Targets.{instruction_at}
use solanago.Vm.Errors.{Error}
use solanago.Vm.Memory.Access.{Loads, load_memory-Loads}
use solanago.Vm.Memory.{MemoryRegion, memory_range, load_memory, store_memory}
use solanago.Vm.Memory.Search.{Finds, Covers, memory_range-Covers}
use solanago.Vm.Memory.Access.{StoreKeeps, load_memory-store_memory, store_memory-StoreKeeps}
use solanago.Vm.Memory.Apart.{store_memory-Apart}
use solanago.Vm.Effect.{effect}
use solanago.Vm.Effect.Bounds.{FitsOpcode, effect-FitsOpcode}
use solanago.Vm.Machine.{Config, build, fetch, new_with_config, validate_config, lift}
use solanago.Vm.Program.{fetch-instruction_at}
use solanago.Vm.Run.{run_regions}
use solanago.Vm.Tests.{vm_runs}
use mathlib.Core.List.{Perm}
use solanago.Vm.Memory.{validate_memory_regions, in_region}
use solanago.Vm.Memory.Map.{IsMap, validate_memory_regions-IsMap, memory_range-served}
use solanago.Vm.Sound.{run_regions-IsRunResult}
use solanago.Vm.Sound.Invariant.{IsRunResult}

abbrev tiny : Config
tiny = record { max_instructions = pos 20; max_call_depth = pos 3; stack_frame_size = pos 16 }

abbrev caller : List Instruction
caller =
    alu_imm mov64_imm 6 (pos 5)
    ∷ call_relative (pos 2)
    ∷ alu_reg mov64_reg 0 6
    ∷ return
    ∷ alu_imm mov64_imm 6 (pos 9)
    ∷ return
    ∷ []

caller-built : new_with_config caller tiny ≡ ok (build caller tiny)
unfolding vm_runs new_with_config validate_config lift
caller-built = refl

abbrev input : MemoryRegion
input = record { vm_address = 0x400000000; bytes = 1 ∷ 2 ∷ 3 ∷ []; permission = 3; name = "" }

run_regions-IsRunResult_example :
    (r : Result Error ℕ) × (run_regions (some (build caller tiny)) (input ∷ []) (4 ∷ 5 ∷ [])
      ≡ some r)
    × IsRunResult caller r
run_regions-IsRunResult_example =
    run_regions-IsRunResult caller tiny (build caller tiny) caller-built (input ∷ []) (4 ∷ 5 ∷ [])
      (omega arith) (omega arith) (omega arith)

abbrev wide : List Instruction
wide = load_imm64 0 7 ∷ return ∷ []

fetch-instruction_at_example : fetch (build wide tiny) 1 ≡ instruction_at wide 1
fetch-instruction_at_example = fetch-instruction_at wide tiny 1

abbrev cells : List ℕ
cells = 0 ∷ 0 ∷ 0 ∷ 0 ∷ 0 ∷ 0 ∷ 0 ∷ 0 ∷ []

abbrev cells_after : List ℕ
cells_after = 0 ∷ 0 ∷ 2 ∷ 1 ∷ 0 ∷ 0 ∷ 0 ∷ 0 ∷ []

stored :
    store_memory cells (input ∷ []) (mm_stack_start + 2) (2 ^ 40 + 258) memory_word
    ≡ ok (cells_after, input ∷ [])
unfolding vm_runs
stored = refl

load_memory-store_memory_example :
    load_memory cells_after (input ∷ []) (mm_stack_start + 2) memory_word
    ≡ ok ((2 ^ 40 + 258) % 256 ^ width_of memory_word)
load_memory-store_memory_example =
    load_memory-store_memory cells (input ∷ []) (mm_stack_start + 2) (2 ^ 40 + 258) memory_word
      (cells_after, input ∷ []) (omega arith) stored

store_memory-Apart_example :
    load_memory cells_after (input ∷ []) 0x400000001 memory_half
    ≡ load_memory cells (input ∷ []) 0x400000001 memory_half
store_memory-Apart_example =
    store_memory-Apart cells (input ∷ []) (mm_stack_start + 2) (2 ^ 40 + 258) memory_word
      (cells_after, input ∷ []) 0x400000001 memory_half (omega arith) stored
      (unfold width_of in inl (omega arith))

store_memory-StoreKeeps_example :
    StoreKeeps cells (input ∷ []) (store_memory cells (input ∷ []) 0x400000001 7 memory_byte)
store_memory-StoreKeeps_example =
    store_memory-StoreKeeps cells (input ∷ []) 0x400000001 7 memory_byte (omega arith)

memory_range-Covers_example :
    Finds
      (Covers cells (input ∷ []) 0x400000001 2 true)
      (memory_range cells (input ∷ []) 0x400000001 2 true)
memory_range-Covers_example = memory_range-Covers cells (input ∷ []) 0x400000001 2 true

effect-FitsOpcode_example : FitsOpcode add64_reg (effect add64_reg 3 4 (pos 0))
effect-FitsOpcode_example = effect-FitsOpcode add64_reg 3 4 (pos 0)

load_memory-Loads_example :
    Loads memory_half (load_memory cells_after (input ∷ []) (mm_stack_start + 2) memory_half)
load_memory-Loads_example =
    load_memory-Loads cells_after (input ∷ []) (mm_stack_start + 2) memory_half
      (record { stack_bytes = omega arith; region_bytes = omega arith })

input-validated : validate_memory_regions (input ∷ []) ≡ ok (input ∷ [])
unfolding vm_runs
input-validated = refl

validate_memory_regions-IsMap_example : IsMap (input ∷ []) × Perm (input ∷ []) (input ∷ [])
validate_memory_regions-IsMap_example =
    validate_memory_regions-IsMap (input ∷ []) (input ∷ []) input-validated

memory_range-served_example :
    memory_range cells (input ∷ []) 0x400000001 2 true ≡ ok (in_region 0 1)
memory_range-served_example =
    memory_range-served cells (input ∷ []) (input ∷ []) 0 input 0x400000001 2 true input-validated
      (omega arith) refl (omega arith)
