-- ===== src/Vm/Step/Cases.antt =====
-- The rules for a statement about a round: one premise for each way through the `switch`.
use solanago.Base.{◌+◌, ◌<◌, ◌≡◌, true, false, none, some, arith, Bool-cases, Option-cases}
use solanago.Base.{inl, inr, get_or}
use solanago.Base.Int.{pos, pos_part, leb_ℤ}
use solanago.Sbpf.Opcode.{call_imm, exit, same}
use solanago.Sbpf.Opcode.Classes.{is_memory_load, is_memory_store}
use solanago.Sbpf.Instruction.{Instruction}
use solanago.Vm.Errors.{instruction_limit, execution_overrun}
use solanago.Vm.Effect.{effect}
use solanago.Vm.Machine.{Vm, fetch}
use solanago.Vm.Step.{RunState, Outcome, failed, call_function, return_from, run_load, run_store}
use solanago.Vm.Step.{run_effect, run_instruction, step}

pub run_instruction_cases {ℓ} :
    (P : Outcome → Type ℓ) (machine : Vm) (state : RunState) (ins : Instruction)
    → (is_memory_load ins.op ≡ true
        → P (run_load machine state ins (get_or state.registers ins.src 0)))
    → (is_memory_store ins.op ≡ true
        → P (
            run_store machine state ins
              (get_or state.registers ins.dst 0)
              (get_or state.registers ins.src 0)))
    → (same ins.op call_imm ≡ true → P (call_function machine state ins))
    → (same ins.op exit ≡ true → P (return_from machine state state.frames))
    → (is_memory_load ins.op ≡ false
        → is_memory_store ins.op ≡ false
        → same ins.op call_imm ≡ false
        → same ins.op exit ≡ false
        → P (
            run_effect machine state ins (
              effect ins.op
                (get_or state.registers ins.dst 0)
                (get_or state.registers ins.src 0)
                ins.immediate)))
    → P (run_instruction machine state ins)
unfolding run_instruction
run_instruction_cases P machine state ins load store call return other =
    elim (Bool-cases (is_memory_load ins.op)) [
      | inl a ↦ rw a (load a)
      | inr a ↦ rw a (elim (Bool-cases (is_memory_store ins.op)) [
        | inl b ↦ rw b (store b)
        | inr b ↦ rw b (elim (Bool-cases (same ins.op call_imm)) [
          | inl c ↦ rw c (call c)
          | inr c ↦ rw c (elim (Bool-cases (same ins.op exit)) [
            | inl d ↦ rw d (return d)
            | inr d ↦ rw d (other a b c d)
          ])
        ])
      ])
    ]

pub step_cases {ℓ} :
    (P : Outcome → Type ℓ) (machine : Vm) (state : RunState)
    → P (failed instruction_limit)
    → (state.steps < pos_part machine.config.max_instructions
        → fetch machine state.pc ≡ none
        → P (failed execution_overrun))
    → (state.steps < pos_part machine.config.max_instructions
        → (ins : Instruction) → fetch machine state.pc ≡ some ins
        → P (run_instruction machine (record state { steps = state.steps + 1 }) ins))
    → P (step machine state)
unfolding step
step_cases P machine state limit overrun run =
    elim (Bool-cases (leb_ℤ machine.config.max_instructions (pos state.steps))) [
      | inl a ↦ rw a limit
      | inr a ↦ rw a (elim (Option-cases (fetch machine state.pc)) [
        | inl e ↦ rw e (overrun (ground arith) e)
        | inr (ins, e) ↦ rw e (run (ground arith) ins e)
      ])
    ]
