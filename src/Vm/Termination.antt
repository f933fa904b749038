-- ===== src/Vm/Termination.antt =====
-- The loop of `execute` ends: each round counts a step, and the limit stops it.
use solanago.Base.{ℕ, zero, suc, ◌+◌, ◌<◌, ◌≤◌, ◌≡◌, refl, List, [], ◌∷◌, Option, none, some}
use solanago.Base.{Result, ok, err, arith, get_or}
use solanago.Base.Int.{ℤ, pos_part}
use solanago.Sbpf.Instruction.{Instruction}
use solanago.Vm.Errors.{Error}
use solanago.Vm.Effect.{Effect, assign, branch, fault}
use solanago.Base.{true, ◌⊎◌}
use solanago.Vm.Machine.{Vm, Config, validate_config, build, new_with_config, new_vm}
use solanago.Vm.Step.{CallFrame, RunState, Outcome, running, returned, failed, advance, set_dst}
use solanago.Vm.Step.{
  call_function, return_from, run_load, run_store, run_effect, run_instruction, step,
}
use solanago.Vm.Step.Cases.{run_instruction_cases, step_cases}
use solanago.Vm.Run.{allocates, execute}

-- If the round goes on, its count of steps is `n`.
abbrev CountIs : ℕ → Outcome → Type 0
CountIs n (running state) = state.steps ≡ n
CountIs n (returned value) = Unit
CountIs n (failed e) = Unit

module _ (machine : Vm) (state : RunState) where
  advance-count : (next : ℤ) → CountIs state.steps (advance machine state next)
  unfolding advance
  advance-count next = ground arith

set_dst-count :
    (machine : Vm) (state : RunState) (ins : Instruction) (value : ℕ)
    → CountIs state.steps (set_dst machine state ins value)
unfolding set_dst
set_dst-count machine state ins value = advance-count machine _ _

call_function-count :
    (machine : Vm) (state : RunState) (ins : Instruction)
    → CountIs state.steps (call_function machine state ins)
unfolding call_function advance
call_function-count machine state ins = ground arith

return_from-count :
    (machine : Vm) (state : RunState) (frames : List CallFrame)
    → CountIs state.steps (return_from machine state frames)
unfolding return_from
return_from-count machine state [] = tt
return_from-count machine state (frame ∷ frames) = advance-count machine _ _

run_load-count :
    (machine : Vm) (state : RunState) (ins : Instruction) (src : ℕ)
    → CountIs state.steps (run_load machine state ins src)
unfolding run_load set_dst advance
run_load-count machine state ins src = ground arith

run_store-count :
    (machine : Vm) (state : RunState) (ins : Instruction) (dst src : ℕ)
    → CountIs state.steps (run_store machine state ins dst src)
unfolding run_store advance
run_store-count machine state ins dst src = ground arith

run_effect-count :
    (machine : Vm) (state : RunState) (ins : Instruction) (e : Option Effect)
    → CountIs state.steps (run_effect machine state ins e)
unfolding run_effect
run_effect-count machine state ins none = tt
run_effect-count machine state ins (some (assign value)) = set_dst-count machine state ins value
run_effect-count machine state ins (some (branch taken)) = advance-count machine state _
run_effect-count machine state ins (some (fault e)) = tt

run_instruction-count :
    (machine : Vm) (state : RunState) (ins : Instruction)
    → CountIs state.steps (run_instruction machine state ins)
run_instruction-count machine state ins =
    run_instruction_cases (CountIs state.steps) machine state ins
      (λ _. run_load-count machine state ins (get_or state.registers ins.src 0))
      (λ _.
        run_store-count machine state ins (get_or state.registers ins.dst 0)
          (get_or state.registers ins.src 0))
      (λ _. call_function-count machine state ins)
      (λ _. return_from-count machine state state.frames)
      (λ _ _ _ _. run_effect-count machine state ins _)

-- If the round goes on, it has counted a step, and was below the limit.
abbrev Counts : Vm → RunState → Outcome → Type 0
Counts machine state (running next) =
    (next.steps ≡ state.steps + 1) × (state.steps < pos_part machine.config.max_instructions)
Counts machine state (returned value) = Unit
Counts machine state (failed e) = Unit

Counts-of :
    (machine : Vm) (state : RunState) (o : Outcome)
    → state.steps < pos_part machine.config.max_instructions
    → CountIs (state.steps + 1) o
    → Counts machine state o
Counts-of machine state (running next) h c = (c, h)
Counts-of machine state (returned value) h c = tt
Counts-of machine state (failed e) h c = tt

step-Counts : (machine : Vm) (state : RunState) → Counts machine state (step machine state)
step-Counts machine state =
    step_cases (Counts machine state) machine state tt (λ _ _. tt)
      (λ h ins _. Counts-of machine state _ h (run_instruction-count machine _ ins))

-- `P` holds of the next state if the round goes on, and `Q` of the result if it returns.
abbrev pub Goes {ℓ} : (RunState → Type ℓ) → (Result Error ℕ → Type ℓ) → Outcome → Type ℓ
Goes P Q (running next) = P next
Goes P Q (returned value) = Q (ok value)
Goes P Q (failed e) = Q (err e)

-- What a call of the loop returns, given what its later rounds return.
after_round {ℓ} :
    (P : RunState → Type ℓ) (Q : Result Error ℕ → Type ℓ) (machine : Vm) (state : RunState)
    (fuel : ℕ) (o : Outcome)
    → Goes P Q o
    → Counts machine state o
    → ((next : RunState)
        → P next
        → next.steps ≡ state.steps + 1
        → state.steps < pos_part machine.config.max_instructions
        → (r : Result Error ℕ) × (execute fuel machine next ≡ some r) × Q r)
    → (r : Result Error ℕ) × (elim o as (λ _. Option (Result Error ℕ)) [
      | running next ↦ execute fuel machine next
      | returned value ↦ some (ok value)
      | failed e ↦ some (err e)
    ]
        ≡ some r)
      × Q r
after_round P Q machine state fuel (running next) p (c, below) later = later next p c below
after_round P Q machine state fuel (returned value) q c later = (ok value, refl, q)
after_round P Q machine state fuel (failed e) q c later = (err e, refl, q)

-- Total correctness of the loop: with more fuel than the rounds that the limit leaves it returns,
-- and what the rounds keep holds to the end.
pub execute_rule {ℓ} :
    (P : RunState → Type ℓ) (Q : Result Error ℕ → Type ℓ) (machine : Vm)
    → ((state : RunState) → P state → Goes P Q (step machine state))
    → (fuel : ℕ) (state : RunState) → P state
    → state.steps ≤ pos_part machine.config.max_instructions
    → pos_part machine.config.max_instructions < state.steps + fuel
    → (r : Result Error ℕ) × (execute fuel machine state ≡ some r) × Q r
unfolding execute
execute_rule P Q machine each zero state p h k = absurd (omega arith)
execute_rule P Q machine each (suc fuel) state p h k =
    after_round P Q machine state fuel (step machine state) (each state p)
      (step-Counts machine state)
      (λ next q c below. execute_rule P Q machine each fuel next q (omega arith) (omega arith))

pub allocates-build :
    (p : List Instruction) (config : Config)
    → validate_config config ≡ ok tt
    → allocates (build p config) ≡ true
unfolding validate_config allocates build
allocates-build p config h = ground arith

-- What the constructors return: the nil machine, the machines of `NewWithConfig`, to which `New` and
-- the constructors from bytes come down, and those of `NewVM`.
abbrev pub IsMade : Option Vm → Type 0
IsMade none = Unit {0}
IsMade (some machine) =
    ((p : List Instruction) × (config : Config) × (new_with_config p config ≡ ok machine))
    ⊎ ((p : List Instruction) × (new_vm p ≡ machine))
