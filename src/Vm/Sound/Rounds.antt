-- ===== src/Vm/Sound/Rounds.antt =====
-- Every round keeps the invariant, or ends the run with a word or with one of its errors.
use solanago.Base.{Bool, ℕ, ◌+◌, ◌^◌, ◌<◌, ◌≤◌, ◌≡◌, refl, sym, ◌∙◌, true, false, List, arith}
use solanago.Base.{Option, none, some, inl, inr, set, Result, ok, err}
use solanago.Base.{length-set}
use mathlib.Core.Bool.{false≢true}
use solanago.Base.Int.{pos}
use solanago.Sbpf.Opcode.{same, call_imm, exit, ja}
use solanago.Sbpf.Opcode.Classes.{is_memory_load, is_memory_store}
use solanago.Sbpf.Instruction.{Instruction, MemoryType, memory_type, width_of, slots}
use solanago.Sbpf.Validate.{validate_program}
use solanago.Sbpf.Validate.Program.{IsValid}
use solanago.Sbpf.Targets.{instruction_at, jump-Lands}
use solanago.Vm.Errors.{Error, invalid_memory, read_only_memory}
use solanago.Vm.Memory.{MemoryRegion}
use solanago.Vm.Memory.Search.{IsMemoryError}
use solanago.Vm.Memory.Store.{SameShape-trans}
use solanago.Vm.Memory.Access.{Loads, load_memory-Loads, StoreKeeps, store_memory-StoreKeeps}
use solanago.Vm.Effect.{Effect, assign, branch, fault, add_signed_offset}
use solanago.Vm.Effect.Bounds.{IsBounded, FitsOpcode}
use solanago.Vm.Machine.{Config, build}
use solanago.Vm.Step.{RunState, Outcome, failed, advance, set_dst, run_load, run_store, run_effect}
use solanago.Vm.Termination.{Goes}
use solanago.Vm.Sound.Control.{IsNext, follow-IsNext, advance-running, advance-end}
use solanago.Vm.Sound.Invariant.{
  IsWord, IsKept, IsSound, IsRunError, IsRunResult, set-IsWord, get_or-set-other,
}

memory_error : (p : List Instruction) (e : Error) → IsMemoryError e → IsRunError p e
memory_error p invalid_memory h = tt
memory_error p read_only_memory h = tt
memory_error p _ h = absurd h

width-word : (kind : MemoryType) → 256 ^ width_of kind ≤ 2 ^ 64
unfolding width_of
width-word kind = ground arith

not_taken : (b : Bool) → (b ≡ true → false ≡ true) → b ≡ false
not_taken true h = absurd (cc (h refl))
not_taken false h = refl

module _ (p : List Instruction) (config : Config) (start : List MemoryRegion) where
  abbrev pub Sound : Outcome → Type 0
  Sound = Goes (IsSound p config start) (IsRunResult p)

  abbrev pub Kept : RunState → Type 0
  Kept s = IsKept p config start s.registers s.stack s.regions s.frames

  pub go_next :
      (state : RunState) (t : ℕ)
      → Kept state
      → IsNext p t
      → Sound (advance (build p config) state (pos t))
  go_next state t k (inl (x, e)) = rw (advance-running p config state t x e) (k, x, e)
  go_next state t k (inr (end, unclosed)) = rw (end, advance-end p config state) unclosed

  set_dst-Sound :
      (state : RunState) (ins : Instruction) (value : ℕ)
      → Kept state
      → ins.dst < 10
      → IsWord value
      → IsNext p (state.pc + slots ins)
      → Sound (set_dst (build p config) state ins value)
  unfolding set_dst
  set_dst-Sound state ins value k d v n =
      go_next (record state { registers = set state.registers ins.dst value })
        (state.pc + slots ins)
        (record {
          eleven = length-set state.registers ins.dst value ∙ k.eleven;
          words = set-IsWord state.registers ins.dst value k.words v;
          pointer = get_or-set-other state.registers ins.dst 10 value (omega arith) ∙ k.pointer;
          depth = k.depth;
          callers = k.callers;
          stack_size = k.stack_size;
          memory = k.memory;
          shape = k.shape;
        })
        n

  loaded :
      (state : RunState) (ins : Instruction) (kind : MemoryType) (r : Result Error ℕ)
      → Kept state
      → ins.dst < 10
      → IsNext p (state.pc + slots ins)
      → Loads kind r
      → Sound (elim r as (λ _. Outcome) [
        | ok value ↦ set_dst (build p config) state ins value
        | err e ↦ failed e
      ])
  loaded state ins kind (ok value) k d n l =
      set_dst-Sound state ins value k d (omega (arith, width-word kind)) n
  loaded state ins kind (err e) k d n l = memory_error p e l

  pub run_load-Sound :
      (state : RunState) (ins : Instruction) (src : ℕ)
      → Kept state
      → ins.dst < 10
      → IsNext p (state.pc + slots ins)
      → Sound (run_load (build p config) state ins src)
  unfolding run_load
  run_load-Sound state ins src k d n = loaded state ins (memory_type ins.op) _ k d n (
      load_memory-Loads state.stack state.regions (add_signed_offset src ins.offset)
        (memory_type ins.op) k.memory)

  saved :
      (state : RunState) (ins : Instruction) (r : Result Error (List ℕ × List MemoryRegion))
      → Kept state
      → IsNext p (state.pc + slots ins)
      → StoreKeeps state.stack state.regions r
      → Sound (elim r as (λ _. Outcome) [
        | ok (stack, regions) ↦
            advance
              (build p config)
              (record state { stack = stack; regions = regions })
              (pos (state.pc + slots ins))
        | err e ↦ failed e
      ])
  saved state ins (ok (stack, regions)) k n (l, s, m) =
      go_next (record state { stack = stack; regions = regions }) (state.pc + slots ins)
        (record {
          eleven = k.eleven;
          words = k.words;
          pointer = k.pointer;
          depth = k.depth;
          callers = k.callers;
          stack_size = l ∙ k.stack_size;
          memory = m k.memory;
          shape = SameShape-trans _ _ _ k.shape s;
        })
        n
  saved state ins (err e) k n h = memory_error p e h

  pub run_store-Sound :
      (state : RunState) (ins : Instruction) (dst src : ℕ)
      → Kept state
      → IsWord src
      → IsNext p (state.pc + slots ins)
      → Sound (run_store (build p config) state ins dst src)
  unfolding run_store
  run_store-Sound state ins dst src k w n = saved state ins _ k n (
      store_memory-StoreKeeps state.stack state.regions (add_signed_offset dst ins.offset) src
        (memory_type ins.op) w)

  pub effect-Sound :
      (state : RunState) (ins : Instruction) (e : Option Effect)
      → validate_program p ≡ ok tt
      → instruction_at p state.pc ≡ some ins
      → Kept state
      → IsValid ins
      → is_memory_load ins.op ≡ false
      → is_memory_store ins.op ≡ false
      → same ins.op call_imm ≡ false
      → same ins.op exit ≡ false
      → IsBounded e
      → FitsOpcode ins.op e
      → Sound (run_effect (build p config) state ins e)
  unfolding run_effect
  effect-Sound state ins none v at k valid l s c x b f =
      let known = valid.named in absurd (false≢true (sym (rw (known, l, s, c, x) at f)))
  effect-Sound state ins (some (assign value)) v at k valid l s c x b f =
      set_dst-Sound state ins value k (valid.writable s) b (follow-IsNext p state.pc ins at x f)
  effect-Sound state ins (some (branch true)) v at k valid l s c x b (j, taken) =
      let (t, e, x, there) = jump-Lands p state.pc ins v at j in
      rw e (go_next state t k (inl (x, there)))
  effect-Sound state ins (some (branch false)) v at k valid l s c x b (j, taken) =
      go_next state (state.pc + slots ins) k
        (follow-IsNext p state.pc ins at x (not_taken (same ins.op ja) taken))
  effect-Sound state ins (some (fault e)) v at k valid l s c x b f = rw b tt
