-- ===== src/Vm/Errors.antt =====
-- The sentinel errors of vm/vm.go and vm/memory.go. A returned error wraps one of them; its message
-- is left out. `stack_overflow` is the one that wraps ErrStackOverflow and ErrCallDepthExceeded, and
-- `sbpf` an error of the package sbpf.
use solanago.Sbpf.Instruction

pub data Error : Type 0 where
  instruction_limit division_by_zero invalid_memory stack_overflow unsupported_call : Error
  unsupported_opcode execution_overrun too_many_arguments invalid_vm_config : Error
  read_only_memory invalid_memory_map overlapping_memory : Error
  sbpf : Instruction.Error → Error
