-- ===== src/Vm/Step.antt =====
-- vm/vm.go: one round of the loop of `execute`.
pub mod Cases
use solanago.Base.{
  ℕ, suc, ◌+◌, ◌-◌, ◌*◌, ◌%◌, ◌^◌, Bool, true, false, not, ◌||◌, List, [], ◌∷◌, ◌++◌,
}
use solanago.Base.{length, get_or, set, take, drop, Option, none, some, Result, ok, err}
use solanago.Base.{ltb, leb, ◌==◌, if◌then◌else◌}
use solanago.Base.Int.{ℤ, pos, ◌+ℤ◌, pos_part, to_u64, ltb_ℤ, leb_ℤ}
use solanago.Sbpf.Opcode.{Opcode, call_imm, exit, same}
use solanago.Sbpf.Opcode.Classes.{is_memory_load, is_memory_store}
use solanago.Sbpf.Instruction.{Instruction, frame_pointer, memory_type, slots}
use solanago.Vm.Errors.{Error, instruction_limit, stack_overflow, unsupported_call}
use solanago.Vm.Errors.{unsupported_opcode, execution_overrun}
use solanago.Vm.Memory.{MemoryRegion, load_memory, store_memory}
use solanago.Vm.Effect.{Effect, assign, branch, fault, effect, add_signed_offset}
use solanago.Vm.Machine.{Vm, fetch, lookup_pc}

-- `calleeSaved` holds r6 to r9.
pub record CallFrame : Type 0 where
  pub return_pc : ℕ
  pub saved_pointer : ℕ
  pub callee_saved : List ℕ

-- `frames` has the last frame first.
pub record RunState : Type 0 where
  pub registers : List ℕ
  pub stack : List ℕ
  pub regions : List MemoryRegion
  pub pc : ℕ
  pub steps : ℕ
  pub frames : List CallFrame

-- A round goes on, or `execute` returns a value or an error.
pub data Outcome : Type 0 where
  running : RunState → Outcome
  returned : ℕ → Outcome
  failed : Error → Outcome

-- The tests on `nextPC` at the end of a round.
unfoldable pub advance : Vm → RunState → ℤ → Outcome
advance machine state next =
    if ltb_ℤ next (pos 0) || leb_ℤ (pos machine.slots) next
    then failed execution_overrun
    else elim (lookup_pc machine.by_pc (pos_part next)) [
      | none ↦ failed execution_overrun
      | some i ↦ running (record state { pc = pos_part next })
    ]

-- `copy(state.registers[sbpf.R6:sbpf.R10], saved)`.
unfoldable pub restore_callee_saved : List ℕ → List ℕ → List ℕ
restore_callee_saved registers saved = take 6 registers ++ (saved ++ drop 10 registers)

-- The case CALL_IMM.
unfoldable pub call_function : Vm → RunState → Instruction → Outcome
call_function machine state ins =
    if not (ins.src == 1)
    then failed unsupported_call
    else if leb_ℤ machine.config.max_call_depth (pos (length state.frames + 1))
    then failed stack_overflow
    else let pointer = get_or state.registers frame_pointer 0 in
      let frame : CallFrame = record {
        return_pc = state.pc + 1;
        saved_pointer = pointer;
        callee_saved = take 4 (drop 6 state.registers);
      } in
      advance machine
        (record state {
          frames = frame ∷ state.frames;
          registers =
              set state.registers frame_pointer
                ((pointer + to_u64 machine.config.stack_frame_size) % 2 ^ 64);
        })
        (pos (state.pc + 1) +ℤ ins.immediate)

-- The case EXIT.
unfoldable pub return_from : Vm → RunState → List CallFrame → Outcome
return_from machine state [] = returned (get_or state.registers 0 0)
return_from machine state (frame ∷ frames) =
    advance machine
      (record state {
        frames = frames;
        registers =
            restore_callee_saved (set state.registers frame_pointer frame.saved_pointer)
              frame.callee_saved;
      })
      (pos frame.return_pc)

-- `*dst = value`, and on to the next instruction.
unfoldable pub set_dst : Vm → RunState → Instruction → ℕ → Outcome
set_dst machine state ins value =
    advance machine (record state { registers = set state.registers ins.dst value })
      (pos (state.pc + slots ins))

-- The cases of the loads and of the stores.
unfoldable pub run_load : Vm → RunState → Instruction → ℕ → Outcome
run_load machine state ins src =
    elim (load_memory state.stack state.regions (add_signed_offset src ins.offset)
      (memory_type ins.op)) [ ok value ↦ set_dst machine state ins value | err e ↦ failed e ]

unfoldable pub run_store : Vm → RunState → Instruction → ℕ → ℕ → Outcome
run_store machine state ins dst src =
    elim (store_memory state.stack state.regions (add_signed_offset dst ins.offset) src
      (memory_type ins.op)) [
        | ok (stack, regions) ↦
            advance machine (record state { stack = stack; regions = regions })
              (pos (state.pc + slots ins))
        | err e ↦ failed e
      ]

-- The cases of arithmetic and jumps, and the default.
unfoldable pub run_effect : Vm → RunState → Instruction → Option Effect → Outcome
run_effect machine state ins none = failed unsupported_opcode
run_effect machine state ins (some (assign value)) = set_dst machine state ins value
run_effect machine state ins (some (branch taken)) =
    advance machine state
      (if taken then pos (state.pc + 1) +ℤ ins.offset else pos (state.pc + slots ins))
run_effect machine state ins (some (fault e)) = failed e

-- The `switch`.
unfoldable pub run_instruction : Vm → RunState → Instruction → Outcome
run_instruction machine state ins =
    let dst = get_or state.registers ins.dst 0 in
    let src = get_or state.registers ins.src 0 in
    if is_memory_load ins.op
    then run_load machine state ins src
    else if is_memory_store ins.op
    then run_store machine state ins dst src
    else if same ins.op call_imm
    then call_function machine state ins
    else if same ins.op exit
    then return_from machine state state.frames
    else run_effect machine state ins (effect ins.op dst src ins.immediate)

-- A round of the loop.
unfoldable pub step : Vm → RunState → Outcome
step machine state =
    if leb_ℤ machine.config.max_instructions (pos state.steps)
    then failed instruction_limit
    else elim (fetch machine state.pc) [
      | none ↦ failed execution_overrun
      | some ins ↦ run_instruction machine (record state { steps = state.steps + 1 }) ins
    ]
