-- ===== src/Vm/Sound/Invariant.antt =====
-- What every round keeps of a run, and the registers and frames it is about.
use solanago.Base.{
  ℕ, zero, suc, ◌+◌, ◌*◌, ◌/◌, ◌^◌, ◌<◌, ◌≤◌, ◌≡◌, ◌≢◌, refl, ap, List, [], ◌∷◌, ◌++◌, arith,
}
use solanago.Base.{some, length, get_or, set, drop, All, Result, ok, err}
use native.Mathlib.Nat.{le-div_iff_mul-le, div-le_self}
use solanago.Base.Int.{pos_part, to_u64, pos, negsuc, ℤ}
use solanago.Sbpf.Instruction.{Instruction, mm_stack_start}
use solanago.Sbpf.Targets.{instruction_at, EndsClosed}
use solanago.Vm.Errors.{
  Error, instruction_limit, division_by_zero, invalid_memory, read_only_memory, stack_overflow,
  unsupported_call, execution_overrun,
}
use solanago.Vm.Memory.{MemoryRegion}
use solanago.Vm.Memory.Store.{SameShape, IsMemory}
use solanago.Vm.Machine.{Config, max_int, validate_config}
use solanago.Vm.Step.{RunState, CallFrame}
use solanago.Vm.Sound.Control.{IsNext}

abbrev pub IsWord : ℕ → Type 0
IsWord w = w < 2 ^ 64

-- The frame pointer with `depth` calls under way.
abbrev pub pointer_at : Config → ℕ → ℕ
pointer_at config depth = mm_stack_start + pos_part config.stack_frame_size * (depth + 1)

-- Each frame can be returned from: it has four words for r6 to r9, the frame pointer of its depth,
-- and a place where the run goes on.
abbrev pub AreFrames : List Instruction → Config → List CallFrame → Type 0
AreFrames p config [] = Unit
AreFrames p config (frame ∷ frames) =
    IsNext p frame.return_pc
    × (frame.saved_pointer ≡ pointer_at config (length frames))
    × (length frame.callee_saved ≡ 4)
    × All IsWord frame.callee_saved
    × AreFrames p config frames

-- The registers, the memory and the frames of a run of `p` that began with the regions
-- `start`.
pub record IsKept (p : List Instruction) (config : Config) (start : List MemoryRegion)
    (registers stack : List ℕ) (regions : List MemoryRegion) (frames : List CallFrame)
    : Type 0 where
  pub eleven : length registers ≡ 11
  pub words : All IsWord registers
  pub pointer : get_or registers 10 0 ≡ pointer_at config (length frames)
  pub depth : length frames < pos_part config.max_call_depth
  pub callers : AreFrames p config frames
  pub stack_size : length stack ≡ pos_part config.stack_frame_size * pos_part config.max_call_depth
  pub memory : IsMemory stack regions
  pub shape : SameShape start regions

-- And an instruction stands at the pc.
abbrev pub IsSound : List Instruction → Config → List MemoryRegion → RunState → Type 0
IsSound p config start state =
    IsKept p config start state.registers state.stack state.regions state.frames
    × (ins : Instruction) × (instruction_at p state.pc ≡ some ins)

-- The errors that a run can end with.
abbrev pub IsRunError : List Instruction → Error → Type 0
IsRunError p instruction_limit = Unit
IsRunError p division_by_zero = Unit
IsRunError p invalid_memory = Unit
IsRunError p read_only_memory = Unit
IsRunError p stack_overflow = Unit
IsRunError p unsupported_call = Unit
IsRunError p execution_overrun = EndsClosed p → ⊥
IsRunError p _ = ⊥

abbrev pub IsRunResult : List Instruction → Result Error ℕ → Type 0
IsRunResult p (ok value) = IsWord value
IsRunResult p (err e) = IsRunError p e

pub get_or-IsWord : (xs : List ℕ) (i : ℕ) → All IsWord xs → IsWord (get_or xs i 0)
get_or-IsWord [] i h = omega arith
get_or-IsWord (x ∷ xs) zero h = h.0
get_or-IsWord (x ∷ xs) (suc i) h = get_or-IsWord xs i h.1

pub set-IsWord : (xs : List ℕ) (i v : ℕ) → All IsWord xs → IsWord v → All IsWord (set xs i v)
set-IsWord [] i v h k = tt
set-IsWord (x ∷ xs) zero v h k = (k, h.1)
set-IsWord (x ∷ xs) (suc i) v h k = (h.0, set-IsWord xs i v h.1 k)

pub get_or-set : (xs : List ℕ) (i v : ℕ) → i < length xs → get_or (set xs i v) i 0 ≡ v
get_or-set [] i v h = absurd (omega arith)
get_or-set (x ∷ xs) zero v h = refl
get_or-set (x ∷ xs) (suc i) v h = get_or-set xs i v (omega arith)

pub get_or-set-other : (xs : List ℕ) (i j v : ℕ) → i ≢ j → get_or (set xs i v) j 0 ≡ get_or xs j 0
get_or-set-other [] i j v ne = refl
get_or-set-other (x ∷ xs) zero zero v ne = absurd (ne refl)
get_or-set-other (x ∷ xs) zero (suc j) v ne = refl
get_or-set-other (x ∷ xs) (suc i) zero v ne = refl
get_or-set-other (x ∷ xs) (suc i) (suc j) v ne = get_or-set-other xs i j v (λ e. ne (ap suc e))

-- An element past the first list is one of the second.
pub get_or-append : (xs ys : List ℕ) (k : ℕ) → get_or (xs ++ ys) (length xs + k) 0 ≡ get_or ys k 0
get_or-append [] ys k = let e : 0 + k ≡ k = omega arith in rw e
get_or-append (x ∷ xs) ys k =
    let e : suc (length xs) + k ≡ suc (length xs + k) = omega arith in rw e (get_or-append xs ys k)

pub get_or-drop : (n k : ℕ) (xs : List ℕ) → get_or (drop n xs) k 0 ≡ get_or xs (n + k) 0
get_or-drop zero k xs = let e : 0 + k ≡ k = omega arith in rw e
get_or-drop (suc n) k [] = refl
get_or-drop (suc n) k (x ∷ xs) =
    let e : suc n + k ≡ suc (n + k) = omega arith in rw e (get_or-drop n k xs)

-- Configurations that `validate_config` accepts.
pub record IsConfig (config : Config) : Type 0 where
  pub deep : 1 ≤ pos_part config.max_call_depth
  pub framed : 0 < pos_part config.stack_frame_size
  pub bounded : pos_part config.stack_frame_size * pos_part config.max_call_depth < 2 ^ 63
  pub frame_word : to_u64 config.stack_frame_size ≡ pos_part config.stack_frame_size

frame_word_of : (z : ℤ) → 0 < pos_part z → pos_part z < 2 ^ 63 → to_u64 z ≡ pos_part z
frame_word_of (pos n) h k = omega arith
frame_word_of (negsuc n) h k = absurd (omega arith)

-- What the last test bounds is the size of the whole stack.
stack_bound : (f d m : ℕ) → 1 ≤ d → f ≤ m / d → (f * d ≤ m) × (f ≤ m)
stack_bound f d m one h = ((le-div_iff_mul-le (omega arith)).0 h, omega (arith, div-le_self m d))

config_facts :
    (config : Config)
    → validate_config config ≡ ok tt
    → (1 ≤ pos_part config.max_call_depth)
      × (0 < pos_part config.stack_frame_size)
      × (pos_part config.stack_frame_size ≤ max_int / pos_part config.max_call_depth)
unfolding validate_config
config_facts config h = (ground arith, ground arith, ground arith)

pub validate_config-IsConfig : (config : Config) → validate_config config ≡ ok tt → IsConfig config
validate_config-IsConfig config h =
    let (deep, framed, quotient) = config_facts config h in
    let (whole, one_frame) =
      stack_bound (pos_part config.stack_frame_size) (pos_part config.max_call_depth) max_int deep
        quotient in
    record {
      deep = deep;
      framed = framed;
      bounded = omega arith;
      frame_word = frame_word_of config.stack_frame_size framed (omega arith);
    }
