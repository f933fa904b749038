-- ===== src/Vm/Sound/Calls.antt =====
-- Calls and returns keep the invariant.
use solanago.Base.{
  ℕ, suc, ◌+◌, ◌*◌, ◌%◌, ◌^◌, ◌<◌, ◌≤◌, ◌≡◌, refl, ap, ◌∙◌, true, ◌==◌, List, [], ◌∷◌, ◌++◌, arith,
}
use solanago.Base.{
  some, inl, inr, length, get_or, set, take, drop, All, ok, All-take, All-drop, All-append,
  Bool-cases,
}
use solanago.Base.{length-set, length-take, length-drop, length-append}
use native.Mathlib.Nat.{mul-suc, mul-le-mul_left}
use solanago.Base.Int.{pos, pos_part, to_u64, leb_ℤ}
use solanago.Sbpf.Opcode.{same, call_imm}
use solanago.Sbpf.Instruction.{Instruction, slots, frame_pointer}
use solanago.Sbpf.Validate.{validate_program}
use solanago.Sbpf.Targets.{instruction_at, call-Lands}
use solanago.Vm.Memory.{MemoryRegion}
use solanago.Vm.Machine.{Config, build}
use solanago.Vm.Step.{
  RunState, CallFrame, advance, call_function, return_from, restore_callee_saved,
}
use solanago.Vm.Sound.Control.{follow-IsNext, call-plain}
use solanago.Vm.Sound.Invariant.{
  IsWord, pointer_at, AreFrames, get_or-IsWord, set-IsWord, get_or-set, get_or-append, get_or-drop,
  IsConfig,
}
use solanago.Vm.Sound.Rounds.{Sound, Kept, go_next}

-- Where a call goes on after it returns.
call-slots : (ins : Instruction) → same ins.op call_imm ≡ true → slots ins ≡ 1
unfolding slots
call-slots ins c = let (_, _, narrow) = call-plain ins.op c in rw narrow refl

pointer_step : (f n : ℕ) → f * (suc n + 1) ≡ f * (n + 1) + f
pointer_step f n = let e : suc n + 1 ≡ suc (n + 1) = omega arith in rw e (mul-suc f (n + 1))

pub pointer_at-bound :
    (config : Config) (n : ℕ)
    → IsConfig config
    → n < pos_part config.max_call_depth
    → pointer_at config n < 2 ^ 64
pointer_at-bound config n c h =
    let below : pos_part config.stack_frame_size * (n + 1)
        ≤ pos_part config.stack_frame_size * pos_part config.max_call_depth =
      mul-le-mul_left (pos_part config.stack_frame_size) (omega arith) in
    omega (arith, c.bounded)

restore-length :
    (registers saved : List ℕ)
    → length registers ≡ 11
    → length saved ≡ 4
    → length (restore_callee_saved registers saved) ≡ 11
unfolding restore_callee_saved
restore-length registers saved eleven four =
    length-append (take 6 registers) (saved ++ drop 10 registers)
    ∙ omega (
      arith,
      length-append saved (drop 10 registers),
      length-take 6 registers,
      length-drop 10 registers,
    )

restore-words :
    (registers saved : List ℕ)
    → All IsWord registers
    → All IsWord saved
    → All IsWord (restore_callee_saved registers saved)
unfolding restore_callee_saved
restore-words registers saved w v =
    All-append IsWord (take 6 registers) _ (All-take IsWord 6 registers w)
      (All-append IsWord saved _ v (All-drop IsWord 10 registers w))

-- The frame pointer is none of the registers restored.
restore-pointer :
    (registers saved : List ℕ)
    → length registers ≡ 11
    → length saved ≡ 4
    → get_or (restore_callee_saved registers saved) 10 0 ≡ get_or registers 10 0
unfolding restore_callee_saved
restore-pointer registers saved eleven four =
    ap (λ i. get_or (take 6 registers ++ (saved ++ drop 10 registers)) i 0) six
    ∙ get_or-append (take 6 registers) (saved ++ drop 10 registers) 4
    ∙ ap (λ i. get_or (saved ++ drop 10 registers) i 0) all_saved
    ∙ get_or-append saved (drop 10 registers) 0
    ∙ get_or-drop 10 0 registers
  where
    six : 10 ≡ length (take 6 registers) + 4
    six = omega (arith, length-take 6 registers)

    all_saved : 4 ≡ length saved + 0
    all_saved = omega arith

module _ (p : List Instruction) (config : Config) (start : List MemoryRegion)
    (c : IsConfig config) where
  return_from-Sound :
      (state : RunState) (frames : List CallFrame)
      → Kept p config start state
      → state.frames ≡ frames
      → AreFrames p config frames
      → Sound p config start (return_from (build p config) state frames)
  unfolding return_from
  return_from-Sound state [] k e a = get_or-IsWord state.registers 0 k.words
  return_from-Sound state (frame ∷ frames) k e (n, s, four, w, rest) =
      let saved = set state.registers frame_pointer frame.saved_pointer in
      let eleven = length-set state.registers frame_pointer frame.saved_pointer ∙ k.eleven in
      let deep : length frames + 1 < pos_part config.max_call_depth =
        omega (arith, ap length e, k.depth) in
      let word : IsWord frame.saved_pointer =
        rw s (pointer_at-bound config (length frames) c (omega arith)) in
      go_next p config start
        (record state {
          frames = frames;
          registers = restore_callee_saved saved frame.callee_saved;
        })
        frame.return_pc
        (record {
          eleven = restore-length saved frame.callee_saved eleven four;
          words =
              restore-words saved frame.callee_saved
                (set-IsWord state.registers 10 frame.saved_pointer k.words word) w;
          pointer =
              restore-pointer saved frame.callee_saved eleven four
              ∙ get_or-set state.registers 10 frame.saved_pointer (omega (arith, k.eleven))
              ∙ s;
          depth = omega arith;
          callers = rest;
          stack_size = k.stack_size;
          memory = k.memory;
          shape = k.shape;
        })
        n

  pub return-Sound :
      (state : RunState)
      → Kept p config start state
      → Sound p config start (return_from (build p config) state state.frames)
  return-Sound state k = return_from-Sound state state.frames k refl k.callers

  -- The state of a call: the next frame of the stack, and the way back.
  called :
      (state : RunState) (ins : Instruction) (t : ℕ)
      → instruction_at p state.pc ≡ some ins
      → same ins.op call_imm ≡ true
      → length state.frames + 1 < pos_part config.max_call_depth
      → ((x : Instruction) × (instruction_at p t ≡ some x))
      → Kept p config start state
      → let pointer = get_or state.registers frame_pointer 0 in
        Sound p config start (
          advance
            (build p config)
            (record state {
              frames =
                  (record {
                    return_pc = state.pc + 1;
                    saved_pointer = pointer;
                    callee_saved = take 4 (drop 6 state.registers);
                  }
                    ∷ state.frames);
              registers =
                  set state.registers frame_pointer
                    ((pointer + to_u64 config.stack_frame_size) % 2 ^ 64);
            })
            (pos t))
  called state ins t at call room there k =
      let (x, j, _) = call-plain ins.op call in
      let back = follow-IsNext p state.pc ins at x j in
      let bound = pointer_at-bound config (suc (length state.frames)) c (omega arith) in
      let next_pointer : (get_or state.registers frame_pointer 0 + to_u64 config.stack_frame_size)
            % 2 ^ 64
          ≡ pointer_at config (suc (length state.frames)) =
        omega (
          arith,
          k.pointer,
          c.frame_word,
          bound,
          pointer_step (pos_part config.stack_frame_size) (length state.frames),
        ) in
      go_next p config start _ t
        (record {
          eleven = length-set state.registers 10 _ ∙ k.eleven;
          words = set-IsWord state.registers 10 _ k.words (omega arith);
          pointer = get_or-set state.registers 10 _ (omega (arith, k.eleven)) ∙ next_pointer;
          depth = omega arith;
          callers = (
            rw (call-slots ins call) at back,
            k.pointer,
            omega (
              arith,
              k.eleven,
              length-take 4 (drop 6 state.registers),
              length-drop 6 state.registers,
            ),
            All-take IsWord 4 _ (All-drop IsWord 6 state.registers k.words),
            k.callers,
          );
          stack_size = k.stack_size;
          memory = k.memory;
          shape = k.shape;
        })
        (inl there)

  pub call_function-Sound :
      (state : RunState) (ins : Instruction)
      → validate_program p ≡ ok tt
      → instruction_at p state.pc ≡ some ins
      → same ins.op call_imm ≡ true
      → Kept p config start state
      → Sound p config start (call_function (build p config) state ins)
  unfolding call_function build
  call_function-Sound state ins v at call k = elim (Bool-cases (ins.src == 1)) [
    | inr other ↦ rw other tt
    | inl internal ↦
        rw internal
          (elim (Bool-cases (leb_ℤ config.max_call_depth (pos (length state.frames + 1)))) [
            | inl deep ↦ rw deep tt
            | inr room ↦
                let (t, e, x, there) = call-Lands p state.pc ins v at call (ground arith) in
                rw (room, e) (called state ins t at call (ground arith) (x, there) k)
          ])
  ]
