-- ===== src/Vm/Machine.antt =====
-- vm/vm.go: the configuration of an interpreter and its construction from a program.
use solanago.Base.{ℕ, ◌+◌, ◌-◌, ◌/◌, ◌^◌, ◌||◌, List, [], ◌∷◌, Option, none, some}
use solanago.Base.{Result, ok, err, fail_if, ◌>>=◌, ◌>>◌, ◌==◌, if◌then◌else◌, get_elem?}
use solanago.Base.Int.{ℤ, pos, pos_part, ltb_ℤ, leb_ℤ}
use solanago.Sbpf.Instruction.{Instruction, physical_pcs}
use solanago.Sbpf.Instruction
use solanago.Sbpf.Validate.{validate_program}
use solanago.Sbpf.Decode.{decode}
use solanago.Vm.Errors.{Error, invalid_vm_config, sbpf}

-- `math.MaxInt`.
abbrev pub max_int : ℕ
max_int = 2 ^ 63 - 1

-- Go's ints, of either sign until `validate_config` has passed.
pub record Config : Type 0 where
  pub max_instructions : ℤ
  pub max_call_depth : ℤ
  pub stack_frame_size : ℤ

abbrev default_max_instructions : ℕ
default_max_instructions = 1000000

abbrev default_max_call_depth : ℕ
default_max_call_depth = 64

abbrev default_stack_frame_size : ℕ
default_stack_frame_size = 4096

unfoldable pub default_config : Config
default_config = record {
  max_instructions = pos default_max_instructions;
  max_call_depth = pos default_max_call_depth;
  stack_frame_size = pos default_stack_frame_size;
}

unfoldable pub validate_config : Config → Result Error (Unit {0})
validate_config config = do
  fail_if (leb_ℤ config.max_instructions (pos 0)) invalid_vm_config
  fail_if (ltb_ℤ config.max_call_depth (pos 1)) invalid_vm_config
  fail_if
      (leb_ℤ config.stack_frame_size (pos 0)
        || ltb_ℤ (pos (max_int / pos_part config.max_call_depth)) config.stack_frame_size)
      invalid_vm_config

-- The map `byPC`, from the pcs of instructions to their indices: a later entry hides an earlier one.
abbrev pub PcMap : Type 0
PcMap = List (ℕ × ℕ)

unfoldable pub lookup_pc : PcMap → ℕ → Option ℕ
lookup_pc [] pc = none
lookup_pc ((k, i) ∷ rest) pc = if k == pc then some i else lookup_pc rest pc

-- `for i, pc := range pcs { byPC[pc] = i }`, from index `i` on.
unfoldable pub index_pcs : PcMap → ℕ → List ℕ → PcMap
index_pcs by_pc i [] = by_pc
index_pcs by_pc i (pc ∷ pcs) = index_pcs ((pc, i) ∷ by_pc) (i + 1) pcs

pub record Vm : Type 0 where
  pub program : List Instruction
  pub by_pc : PcMap
  pub slots : ℕ
  pub config : Config
  pub init_err : Option Error

-- `if err != nil { return err }` on an error of the package sbpf.
unfoldable pub lift {ℓ} : {A : Type ℓ} → Result Instruction.Error A → Result Error A
lift (ok a) = ok a
lift (err e) = err (sbpf e)

unfoldable pub build : List Instruction → Config → Vm
build program config =
    let (pcs, slots) = physical_pcs program in
    record {
      program = program;
      by_pc = index_pcs [] 0 pcs;
      slots = slots;
      config = config;
      init_err = none;
    }

unfoldable pub new_with_config : List Instruction → Config → Result Error Vm
new_with_config program config = do
  validate_config config
  lift (validate_program program)
  ok (build program config)

-- `New`.
unfoldable pub new : List Instruction → Result Error Vm
new program = new_with_config program default_config

-- `NewVM` keeps the error for `Run`.
unfoldable pub new_vm : List Instruction → Vm
new_vm program = elim (new program) [
  | ok machine ↦ machine
  | err e ↦ record {
    program = [];
    by_pc = [];
    slots = 0;
    config = default_config;
    init_err = some e;
  }
]

unfoldable pub new_bytes_with_config : List ℕ → Config → Result Error Vm
new_bytes_with_config bytecode config = do
  program ← lift (decode bytecode)
  new_with_config program config

unfoldable pub new_bytes : List ℕ → Result Error Vm
new_bytes bytecode = new_bytes_with_config bytecode default_config

-- `machine.program[machine.byPC[pc]]`; `none` where the map lacks the pc.
unfoldable pub fetch : Vm → ℕ → Option Instruction
fetch machine pc = elim (lookup_pc machine.by_pc pc) [
  | none ↦ none
  | some i ↦ get_elem? machine.program i
]
