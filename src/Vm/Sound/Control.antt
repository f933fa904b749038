-- ===== src/Vm/Sound/Control.antt =====
-- Where a round can leave the pc, in a program that passed `validate_program`.
use solanago.Base.{ℕ, ◌+◌, ◌-◌, ◌<◌, ◌≡◌, refl, ◌∙◌, true, false, List, [], ◌∷◌, arith}
use solanago.Base.{Option, none, some, ◌⊎◌, inl, inr, ◌||◌}
use solanago.Base.Int.{pos, ltb_ℤ, leb_ℤ}
use solanago.Sbpf.Opcode.{Opcode, same, byte_of, call_imm, exit, ja, ld_dw_imm}
use solanago.Sbpf.Opcode.Classes.{is_memory_load, is_memory_store}
use solanago.Sbpf.Instruction.{Instruction, slots, physical_pcs}
use solanago.Sbpf.Validate.Program.{slot_total, pcs_from-total}
use solanago.Sbpf.Targets.{instruction_at, next-IsPlace, EndsClosed, last_closed}
use solanago.Sbpf.RoundTrip.{slots_pos}
use solanago.Vm.Errors.{execution_overrun}
use solanago.Vm.Machine.{Config, build}
use solanago.Vm.Step.{RunState, running, failed, advance}
use solanago.Vm.Program.{Agrees, build-Agrees}

-- An instruction starts at the slot, or the program ends there and does not end closed.
abbrev pub IsNext : List Instruction → ℕ → Type 0
IsNext p t =
    ((ins : Instruction) × (instruction_at p t ≡ some ins))
    ⊎ ((t ≡ slot_total p) × (EndsClosed p → ⊥))

pub follow-IsNext :
    (p : List Instruction) (pc : ℕ) (ins : Instruction)
    → instruction_at p pc ≡ some ins
    → same ins.op exit ≡ false
    → same ins.op ja ≡ false
    → IsNext p (pc + slots ins)
follow-IsNext p pc ins e x j = elim (next-IsPlace p pc ins e) [
  | inl there ↦ inl there
  | inr end ↦
      inr (end, λ closed. elim (last_closed p pc ins closed e end) [ inl y ↦ cc | inr y ↦ cc ])
]

pub instruction_at-lt :
    (p : List Instruction) (t : ℕ) (x : Instruction)
    → instruction_at p t ≡ some x
    → t < slot_total p
unfolding instruction_at
instruction_at-lt [] t x e = absurd (cc e)
instruction_at-lt (first ∷ rest) t x e =
    ground (arith, slots_pos first, instruction_at-lt rest (t - slots first) x)

module _ (p : List Instruction) (config : Config) where
  build-slots : (build p config).slots ≡ slot_total p
  unfolding build physical_pcs
  build-slots = pcs_from-total 0 p ∙ omega arith

  lookup_at :
      (t : ℕ) (x : Instruction) (j : Option ℕ)
      → Agrees 0 p (instruction_at p t) j
      → instruction_at p t ≡ some x
      → (i : ℕ) × (j ≡ some i)
  lookup_at t x none a e = cc
  lookup_at t x (some i) a e = (i, refl)

  -- A target that is an instruction's first slot is reached.
  pub advance-running :
      (state : RunState) (t : ℕ) (x : Instruction)
      → instruction_at p t ≡ some x
      → advance (build p config) state (pos t) ≡ running (record state { pc = t })
  unfolding advance
  advance-running state t x e =
      let (i, found) = lookup_at t x _ (build-Agrees p config t) e in
      let inside : (ltb_ℤ (pos t) (pos 0) || leb_ℤ (pos (slot_total p)) (pos t)) ≡ false =
        ground (arith, instruction_at-lt p t x e) in
      rw (build-slots, inside, found) refl

  -- The end of the code is not.
  pub advance-end :
      (state : RunState)
      → advance (build p config) state (pos (slot_total p)) ≡ failed execution_overrun
  unfolding advance
  advance-end state =
      let outside : (ltb_ℤ (pos (slot_total p)) (pos 0)
            || leb_ℤ (pos (slot_total p)) (pos (slot_total p)))
          ≡ true =
        ground arith in
      rw (build-slots, outside) refl

pub call-plain :
    (op : Opcode)
    → same op call_imm ≡ true
    → (same op exit ≡ false) × (same op ja ≡ false) × (same op ld_dw_imm ≡ false)
unfolding same byte_of
call-plain op h = (ground arith, ground arith, ground arith)

pub load-plain :
    (op : Opcode)
    → is_memory_load op ≡ true
    → (same op exit ≡ false) × (same op ja ≡ false) × (is_memory_store op ≡ false)
unfolding same byte_of is_memory_load is_memory_store
load-plain ld_dw_imm h = (refl, refl, refl)
load-plain op h = (ground arith, ground arith, ground arith)

pub store-plain :
    (op : Opcode) → is_memory_store op ≡ true → (same op exit ≡ false) × (same op ja ≡ false)
unfolding same byte_of is_memory_store
store-plain ld_dw_imm h = (refl, refl)
store-plain op h = (ground arith, ground arith)
