-- ===== src/Vm/Run.antt =====
-- vm/vm.go: `Run`, `RunWithMemory` and the loop of `execute`.
use solanago.Base.{ℕ, zero, suc, ◌+◌, ◌*◌, ◌%◌, ◌^◌, List, [], ◌∷◌, length, set, replicate, Option}
use solanago.Base.{none, some, Result, ok, err, Bool, not, ◌&&◌, ltb, if◌then◌else◌}
use solanago.Base.Int.{pos, pos_part, to_u64, ltb_ℤ}
use solanago.Sbpf.Instruction.{frame_pointer, mm_stack_start, register_count}
use solanago.Vm.Errors.{Error, invalid_vm_config, too_many_arguments}
use solanago.Vm.Memory.{MemoryRegion, validate_memory_regions}
use solanago.Vm.Machine.{Vm}
use solanago.Vm.Step.{RunState, running, returned, failed, step}

abbrev pub max_arguments : ℕ
max_arguments = 5

-- The loop, on fuel: `none` is no result of the code. It is that the fuel ran out.
unfoldable pub execute : ℕ → Vm → RunState → Option (Result Error ℕ)
execute zero machine state = none
execute (suc fuel) machine state = elim (step machine state) [
  | running next ↦ execute fuel machine next
  | returned value ↦ some (ok value)
  | failed e ↦ some (err e)
]

-- `for i, argument := range args { state.registers[i+1] = argument }`, from index `i` on.
unfoldable pub set_arguments : List ℕ → ℕ → List ℕ → List ℕ
set_arguments registers i [] = registers
set_arguments registers i (argument ∷ rest) =
    set_arguments (set registers (i + 1) argument) (i + 1) rest

unfoldable pub start_state : Vm → List MemoryRegion → List ℕ → RunState
start_state machine regions args = record {
  registers =
      set (set_arguments (replicate register_count 0) 0 args) frame_pointer
        ((mm_stack_start + to_u64 machine.config.stack_frame_size) % 2 ^ 64);
  stack =
      replicate (pos_part machine.config.stack_frame_size * pos_part machine.config.max_call_depth)
        0;
  regions = regions;
  pc = 0;
  steps = 0;
  frames = [];
}

-- A round for each instruction of the limit, and one that finds the limit reached.
unfoldable pub fuel_of : Vm → ℕ
fuel_of machine = suc (pos_part machine.config.max_instructions)

-- Whether the two calls of `make` in `run` get a length and a capacity that are not negative. They
-- panic otherwise, which happens on the zero value of the type, that no constructor returned.
unfoldable pub allocates : Vm → Bool
allocates machine =
    not (ltb_ℤ machine.config.max_call_depth (pos 1))
    && not (ltb_ℤ machine.config.stack_frame_size (pos 0))

-- The method `run`; no machine is the nil pointer. Where `make` panics there is no result.
unfoldable pub run_regions : Option Vm → List MemoryRegion → List ℕ → Option (Result Error ℕ)
run_regions none regions args = some (err invalid_vm_config)
run_regions (some machine) regions args = elim machine.init_err [
  | some e ↦ some (err e)
  | none ↦
      if ltb max_arguments (length args)
      then some (err too_many_arguments)
      else if allocates machine
      then execute (fuel_of machine) machine (start_state machine regions args)
      else none
]

-- `Run`.
unfoldable pub run : Option Vm → List ℕ → Option (Result Error ℕ)
run machine args = run_regions machine [] args

unfoldable pub run_with_memory : Option Vm → List MemoryRegion → List ℕ → Option (Result Error ℕ)
run_with_memory machine regions args = elim (validate_memory_regions regions) [
  | err e ↦ some (err e)
  | ok validated ↦ run_regions machine validated args
]
