-- ===== src/Vm/Sound.antt =====
-- Runs of machines built from programs that passed `validate_program`: the invariant of their rounds, and
-- how they end. The four modules below are its parts.
mod Control
pub mod Invariant
mod Rounds
mod Calls
use solanago.Base.{
  ℕ, zero, suc, ◌+◌, ◌*◌, ◌%◌, ◌^◌, ◌<◌, ◌≤◌, ◌≡◌, refl, sym, ◌∙◌, false, true, List, [], ◌∷◌,
  length, get_or, set, replicate, Option, none, some, Result, ok, err, arith, All, inl, inr, ltb,
  Bool-cases,
}
use mathlib.Core.Path.{subst}
use solanago.Base.{>>=-eq-ok, ok-injective, length-set, length-replicate}
use solanago.Base.Bytes.{IsByte}
use solanago.Base.Int.{pos, pos_part, leb_ℤ, to_u64}
use solanago.Sbpf.Opcode.{same, exit, ja}
use solanago.Sbpf.Instruction
use solanago.Sbpf.Instruction.{Instruction, frame_pointer, mm_stack_start, slots}
use solanago.Sbpf.Validate.{validate_program}
use solanago.Sbpf.Validate.Program.{validate_program-IsChecked}
use solanago.Sbpf.Targets.{instruction_at, instruction-IsValid}
use solanago.Vm.Errors.{Error, too_many_arguments}
use solanago.Vm.Memory.{MemoryRegion}
use solanago.Vm.Memory.Store.{IsMemory, SameShape-refl}
use solanago.Vm.Effect.{effect}
use solanago.Vm.Effect.Bounds.{effect-IsBounded, effect-FitsOpcode}
use solanago.Vm.Machine.{Config, Vm, build, new_with_config, lift, fetch, validate_config}
use solanago.Vm.Step.{RunState, Outcome, failed, run_instruction, step}
use solanago.Vm.Step.Cases.{run_instruction_cases, step_cases}
use solanago.Vm.Program.{fetch-instruction_at}
use solanago.Vm.Termination.{allocates-build, Goes, execute_rule}
use solanago.Vm.Run.{allocates, execute, fuel_of, set_arguments, start_state, run_regions}
use solanago.Vm.Sound.Control.{IsNext, follow-IsNext, load-plain, store-plain}
use solanago.Vm.Sound.Invariant.{
  IsWord, pointer_at, AreFrames, IsKept, IsSound, IsRunError, IsRunResult, get_or-IsWord,
  set-IsWord, get_or-set, IsConfig, validate_config-IsConfig,
}
use solanago.Vm.Sound.Rounds.{Sound, Kept, run_load-Sound, run_store-Sound, effect-Sound}
use solanago.Vm.Sound.Calls.{pointer_at-bound, return-Sound, call_function-Sound}

module _ (p : List Instruction) (config : Config) (start : List MemoryRegion)
    (valid : validate_program p ≡ ok tt) (c : IsConfig config) where
  run_instruction-Sound :
      (state : RunState) (ins : Instruction)
      → Kept p config start state
      → instruction_at p state.pc ≡ some ins
      → Sound p config start (run_instruction (build p config) state ins)
  run_instruction-Sound state ins k at =
      let checked = instruction-IsValid p state.pc ins valid at in
      let dst = get_or-IsWord state.registers ins.dst k.words in
      let src = get_or-IsWord state.registers ins.src k.words in
      run_instruction_cases (Sound p config start) (build p config) state ins
        (λ h.
          let (x, j, s) = load-plain ins.op h in
          run_load-Sound p config start state ins _ k (checked.writable s)
            (follow-IsNext p state.pc ins at x j))
        (λ h.
          let (x, j) = store-plain ins.op h in
          run_store-Sound p config start state ins _ _ k src (follow-IsNext p state.pc ins at x j))
        (λ h. call_function-Sound p config start c state ins valid at h k)
        (λ h. return-Sound p config start c state k)
        (λ l s call x.
          effect-Sound p config start state ins _ valid at k checked l s call x
            (effect-IsBounded ins.op _ _ ins.immediate dst src)
            (effect-FitsOpcode ins.op _ _ ins.immediate))

  step-Sound :
      (state : RunState)
      → IsSound p config start state
      → Sound p config start (step (build p config) state)
  step-Sound state (k, ins, at) =
      step_cases (Sound p config start) (build p config) state tt
        (λ _ missing.
          let gone : none ≡ some ins = sym missing ∙ fetch-instruction_at p config state.pc ∙ at in
          cc)
        (λ _ found e.
          run_instruction-Sound (record state { steps = state.steps + 1 }) found k
            (sym (fetch-instruction_at p config state.pc) ∙ e))

set_arguments-kept :
    (registers : List ℕ) (i : ℕ) (args : List ℕ)
    → All IsWord registers
    → All IsWord args
    → All IsWord (set_arguments registers i args)
      × (length (set_arguments registers i args) ≡ length registers)
unfolding set_arguments
set_arguments-kept registers i [] w a = (w, refl)
set_arguments-kept registers i (argument ∷ rest) w (b, a) =
    let (words, same_length) =
      set_arguments-kept (set registers (i + 1) argument) (i + 1) rest
        (set-IsWord registers (i + 1) argument w b) a in
    (words, same_length ∙ length-set registers (i + 1) argument)

zeros-All : (P : ℕ → Type 0) (n : ℕ) → P 0 → All P (replicate n 0)
zeros-All P zero h = tt
zeros-All P (suc n) h = (h, zeros-All P n h)

-- A run begins in the invariant.
start_state-IsKept :
    (p : List Instruction) (config : Config) (regions : List MemoryRegion) (args : List ℕ)
    → IsConfig config
    → All IsWord args
    → All (λ (r : MemoryRegion). All IsByte r.bytes) regions
    → Kept p config regions (start_state (build p config) regions args)
unfolding start_state build
start_state-IsKept p config regions args c a m = record {
  eleven = length-set given 10 first ∙ same_length ∙ length-replicate 11 zero;
  words = set-IsWord given 10 first words (omega arith);
  pointer =
      get_or-set given 10 first (omega (arith, same_length, length-replicate 11 zero)) ∙ in_stack;
  depth = omega (arith, c.deep);
  callers = tt;
  stack_size = length-replicate _ zero;
  memory = record { stack_bytes = zeros-All IsByte _ (omega arith); region_bytes = m };
  shape = SameShape-refl regions;
}
  where
    zeros : List ℕ
    zeros = replicate 11 0

    given : List ℕ
    given = set_arguments zeros 0 args

    first : ℕ
    first = (mm_stack_start + to_u64 config.stack_frame_size) % 2 ^ 64

    words : All IsWord given
    words = (set_arguments-kept zeros 0 args (zeros-All IsWord 11 (omega arith)) a).0

    same_length : length given ≡ length zeros
    same_length = (set_arguments-kept zeros 0 args (zeros-All IsWord 11 (omega arith)) a).1

    in_stack : first ≡ pointer_at config 0
    in_stack = omega (arith, c.frame_word, pointer_at-bound config 0 c (omega (arith, c.deep)))

first_instruction :
    (p : List Instruction)
    → validate_program p ≡ ok tt
    → (ins : Instruction) × (instruction_at p 0 ≡ some ins)
unfolding instruction_at
first_instruction [] v =
    let none_left = (validate_program-IsChecked [] v).nonempty in absurd (omega arith)
first_instruction (ins ∷ rest) v = (ins, refl)

run_regions-execute :
    (p : List Instruction) (config : Config) (regions : List MemoryRegion) (args : List ℕ)
    → validate_config config ≡ ok tt
    → length args ≤ 5
    → run_regions (some (build p config)) regions args
      ≡ execute
          (fuel_of (build p config))
          (build p config)
          (start_state (build p config) regions args)
unfolding run_regions build
run_regions-execute p config regions args good few =
    let count : ltb 5 (length args) ≡ false = ground arith in
    rw (count, allocates-build p config good) refl

build-IsRunResult :
    (p : List Instruction) (config : Config) (regions : List MemoryRegion)
    → validate_program p ≡ ok tt
    → validate_config config ≡ ok tt
    → (args : List ℕ) → length args ≤ 5
    → All IsWord args
    → All (λ (r : MemoryRegion). All IsByte r.bytes) regions
    → (r : Result Error ℕ) × (run_regions (some (build p config)) regions args ≡ some r)
      × IsRunResult p r
build-IsRunResult p config regions valid good args few words bytes =
    let c = validate_config-IsConfig config good in
    let first = first_instruction p valid in
    let (r, ended, result) =
      execute_rule (IsSound p config regions) (IsRunResult p) (build p config)
        (step-Sound p config regions valid c) (fuel_of (build p config))
        (start_state (build p config) regions args)
        (
          start_state-IsKept p config regions args c words bytes,
          first.0,
          unfold start_state in first.1,
        )
        (unfold start_state in omega arith) (unfold start_state fuel_of in omega arith) in
    (r, run_regions-execute p config regions args good few ∙ ended, result)

lift_ok : (r : Result Instruction.Error (Unit {0})) → lift r ≡ ok tt → r ≡ ok tt
unfolding lift
lift_ok (ok tt) h = refl
lift_ok (err e) h = cc

module _ (p : List Instruction) (config : Config) (machine : Vm)
    (built : new_with_config p config ≡ ok machine) where
  built_from :
      (validate_config config ≡ ok tt) × (validate_program p ≡ ok tt) × (build p config ≡ machine)
  unfolding new_with_config
  built_from =
      let (_, good, e) = >>=-eq-ok (validate_config config) _ built in
      let (_, checked, e') = >>=-eq-ok (lift (validate_program p)) _ e in
      (good, lift_ok _ checked, ok-injective e')

  -- A machine that `NewWithConfig` made, run with at most five words as arguments on regions of bytes,
  -- returns a word, or fails at the instruction limit, in a division by zero, in an access to memory
  -- (two errors), at the call depth, in a call that is no internal one, or by running over the end of
  -- its code, which happens only if the program ends neither in EXIT nor in JA. So it never meets an
  -- operation that it does not know, and never lands inside an instruction.
  pub run_regions-IsRunResult :
      (regions : List MemoryRegion) (args : List ℕ)
      → length args ≤ 5
      → All IsWord args
      → All (λ (r : MemoryRegion). All IsByte r.bytes) regions
      → (r : Result Error ℕ) × (run_regions (some machine) regions args ≡ some r) × IsRunResult p r
  run_regions-IsRunResult regions args few words bytes =
      let (good, valid, e) = built_from in
      subst
        (λ m. (r : Result Error ℕ) × (run_regions (some m) regions args ≡ some r) × IsRunResult p r)
        e (build-IsRunResult p config regions valid good args few words bytes)
