-- ===== src/Sbpf/Targets.antt =====
-- Where the control of a program that passed `validate_program` can go.
use solanago.Base.{
  ℕ, ◌+◌, ◌-◌, ◌<◌, ◌≤◌, ◌≡◌, refl, ap, sym, ◌∙◌, true, false, List, [], ◌∷◌, arith,
}
use solanago.Base.{Option, none, some, ◌⊎◌, inl, inr, if◌then◌else◌, ltb, ◌==◌, ok}
use mathlib.Core.Logic.{◌≢◌}
use mathlib.Core.Bool.{false≢true}
use native.Mathlib.Decide.{ℕ_discrete, dec_lt}
use solanago.Base.{fail_if, ◌||◌, not, ◌>>◌}
use solanago.Base.Int.{ℤ, pos, ◌+ℤ◌, ltb_ℤ, leb_ℤ, pos_part}
use solanago.Sbpf.Opcode.{Opcode, same, byte_of, call_imm, exit, ja, ld_dw_imm, unknown}
use solanago.Sbpf.Opcode.Classes.{is_jump, is_jump_immediate, is_jump_register}
use solanago.Sbpf.Instruction.{Instruction, slots, pcs_from, invalid_jump}
use solanago.Sbpf.Validate.{contains, validate_instruction, validate_target, validate_program}
use solanago.Sbpf.Validate.Program.{slot_total, Checked, validate_program-IsChecked, IsValid}
use solanago.Sbpf.Validate.Program.{validate_instruction-IsValid}
use solanago.Sbpf.RoundTrip.{slots_pos}

-- The instruction whose first slot is the slot `pc` of the program.
unfoldable pub instruction_at : List Instruction → ℕ → Option Instruction
instruction_at [] pc = none
instruction_at (ins ∷ rest) pc =
    if pc == 0
    then some ins
    else if ltb pc (slots ins)
    then none
    else instruction_at rest (pc - slots ins)

at_here : (ins : Instruction) (rest : List Instruction) → instruction_at (ins ∷ rest) 0 ≡ some ins
unfolding instruction_at
at_here ins rest = refl

at_later :
    (ins : Instruction) (rest : List Instruction) (t : ℕ)
    → slots ins ≤ t
    → instruction_at (ins ∷ rest) t ≡ instruction_at rest (t - slots ins)
unfolding instruction_at
at_later ins rest t h =
    let nonzero : (t == 0) ≡ false = ground (arith, slots_pos ins) in
    let beyond : ltb t (slots ins) ≡ false = ground arith in rw (nonzero, beyond)

at_cases :
    (first : Instruction) (rest : List Instruction) (t : ℕ) (ins : Instruction)
    → instruction_at (first ∷ rest) t ≡ some ins
    → ((t ≡ 0) × (first ≡ ins))
      ⊎ ((slots first ≤ t) × (instruction_at rest (t - slots first) ≡ some ins))
unfolding instruction_at
at_cases first rest t ins e = ground arith

-- The starts of the instructions from `start` on are not below it.
contains_before :
    (start : ℕ) (p : List Instruction) (t : ℕ) → t < start → contains (pcs_from start p).0 t ≡ false
unfolding contains pcs_from
contains_before start [] t h = refl
contains_before start (ins ∷ rest) t h =
    let other : (start == t) ≡ false = ground arith in
    rw other (contains_before (start + slots ins) rest t (omega arith))

contains-cons :
    (start : ℕ) (ins : Instruction) (rest : List Instruction) (t : ℕ)
    → start ≢ t
    → contains (pcs_from start (ins ∷ rest)).0 t ≡ contains (pcs_from (start + slots ins) rest).0 t
unfolding contains pcs_from
contains-cons start ins rest t ne = let other : (start == t) ≡ false = ground arith in rw other

-- A start of an instruction in the list of pcs is one in the program.
pub contains-instruction_at :
    (start : ℕ) (p : List Instruction) (t : ℕ)
    → start ≤ t
    → contains (pcs_from start p).0 t ≡ true
    → (ins : Instruction) × (instruction_at p (t - start) ≡ some ins)
contains-instruction_at start [] t h c = unfold contains pcs_from in cc c
contains-instruction_at start (ins ∷ rest) t h c = elim (ℕ_discrete start t) [
  | yes e ↦ let here : t - start ≡ 0 = omega arith in (ins, rw here (at_here ins rest))
  | no ne ↦
      let c' = rw (contains-cons start ins rest t ne) at c in
      elim (dec_lt t (start + slots ins)) [
        | yes lt ↦ absurd (false≢true (sym (contains_before (start + slots ins) rest t lt) ∙ c'))
        | no ge ↦
            let (x, e) = contains-instruction_at (start + slots ins) rest t (omega arith) c' in
            let offset : t - start - slots ins ≡ t - (start + slots ins) = omega arith in
            (x, at_later ins rest (t - start) (omega arith) ∙ rw offset e)
      ]
]

-- Both checks passed at each instruction.
Checked-at :
    (starts : List ℕ) (n pc : ℕ) (p : List Instruction) (t : ℕ) (ins : Instruction)
    → Checked starts n pc p
    → instruction_at p t ≡ some ins
    → (validate_instruction ins ≡ ok tt) × (validate_target starts n (pc + t) ins ≡ ok tt)
Checked-at starts n pc [] t ins c e = absurd (unfold instruction_at in cc e)
Checked-at starts n pc (first ∷ rest) t ins (v, w, c) e = elim (at_cases first rest t ins e) [
  | inl (z, q) ↦ let here : pc + t ≡ pc = omega arith in rw (here, ← q) (v, w)
  | inr (le, q) ↦
      let there : pc + t ≡ pc + slots first + (t - slots first) = omega arith in
      rw there (Checked-at starts n (pc + slots first) rest (t - slots first) ins c q)
]

-- A place of a program: an instruction starts there, or the program ends.
abbrev pub IsPlace : List Instruction → ℕ → Type 0
IsPlace p t = ((ins : Instruction) × (instruction_at p t ≡ some ins)) ⊎ (t ≡ slot_total p)

start-IsPlace : (p : List Instruction) → IsPlace p 0
start-IsPlace [] = inr refl
start-IsPlace (ins ∷ rest) = inl (ins, at_here ins rest)

cons-IsPlace :
    (first : Instruction) (rest : List Instruction) (t k : ℕ)
    → k ≡ slots first + t
    → IsPlace rest t
    → IsPlace (first ∷ rest) k
cons-IsPlace first rest t k e (inl (x, q)) =
    let back : k - slots first ≡ t = omega arith in
    inl (x, at_later first rest k (omega arith) ∙ rw back q)
cons-IsPlace first rest t k e (inr q) = inr (omega arith)

-- After an instruction comes another, or the end of the program.
pub next-IsPlace :
    (p : List Instruction) (pc : ℕ) (ins : Instruction)
    → instruction_at p pc ≡ some ins
    → IsPlace p (pc + slots ins)
next-IsPlace [] pc ins e = absurd (unfold instruction_at in cc e)
next-IsPlace (first ∷ rest) pc ins e = elim (at_cases first rest pc ins e) [
  | inl (z, q) ↦
      cons-IsPlace first rest 0 (pc + slots ins) (rw q (omega arith)) (start-IsPlace rest)
  | inr (le, q) ↦
      cons-IsPlace first rest (pc - slots first + slots ins) (pc + slots ins) (omega arith)
        (next-IsPlace rest (pc - slots first) ins q)
]

-- The program ends in EXIT or in JA.
abbrev pub EndsClosed : List Instruction → Type 0
EndsClosed [] = ⊥
EndsClosed (ins ∷ []) = (same ins.op exit ≡ true) ⊎ (same ins.op ja ≡ true)
EndsClosed (ins ∷ (next ∷ rest)) = EndsClosed (next ∷ rest)

-- The instruction that the program ends with is then one of the two.
pub last_closed :
    (p : List Instruction) (pc : ℕ) (ins : Instruction)
    → EndsClosed p
    → instruction_at p pc ≡ some ins
    → pc + slots ins ≡ slot_total p
    → (same ins.op exit ≡ true) ⊎ (same ins.op ja ≡ true)
last_closed [] pc ins c e h = absurd c
last_closed (first ∷ []) pc ins c e h = elim (at_cases first [] pc ins e) [
  | inl (z, q) ↦ rw (← q) c
  | inr (le, q) ↦ absurd (unfold instruction_at in cc q)
]
last_closed (first ∷ (next ∷ rest)) pc ins c e h = elim (at_cases first (next ∷ rest) pc ins e) [
  | inl (z, q) ↦ absurd (omega (arith, slots_pos next, ap slots q))
  | inr (le, q) ↦ last_closed (next ∷ rest) (pc - slots first) ins c q (omega arith)
]

-- The instruction at `pc` with the offset `off` goes to the first slot of an instruction.
abbrev pub Lands : List Instruction → ℕ → ℤ → Type 0
Lands p pc off =
    (t : ℕ) × (pos (pc + 1) +ℤ off ≡ pos t) × (x : Instruction) × (instruction_at p t ≡ some x)

-- The two tests of `validate_target` on a target.
in_code :
    (starts : List ℕ) (n : ℕ) (target : ℤ)
    → (fail_if (ltb_ℤ target (pos 0) || leb_ℤ (pos n) target) invalid_jump
        >> fail_if (not (contains starts (pos_part target))) invalid_jump)
      ≡ ok tt
    → (target ≡ pos (pos_part target)) × (contains starts (pos_part target) ≡ true)
in_code starts n target h = ground arith

lands :
    (p : List Instruction) (n pc : ℕ) (off : ℤ)
    → (fail_if
          (ltb_ℤ (pos (pc + 1) +ℤ off) (pos 0) || leb_ℤ (pos n) (pos (pc + 1) +ℤ off))
          invalid_jump
        >> fail_if (not (contains (pcs_from 0 p).0 (pos_part (pos (pc + 1) +ℤ off)))) invalid_jump)
      ≡ ok tt
    → Lands p pc off
lands p n pc off h =
    let target = pos (pc + 1) +ℤ off in
    let (e, c) = in_code (pcs_from 0 p).0 n target h in
    let (x, at) = contains-instruction_at 0 p (pos_part target) (omega arith) c in
    let start : pos_part target - 0 ≡ pos_part target = omega arith in
    (pos_part target, e, x, rw start at at)

call-not_jump : (op : Opcode) → same op call_imm ≡ true → is_jump op ≡ false
unfolding same is_jump byte_of is_jump_immediate is_jump_register
call-not_jump ld_dw_imm h = refl
call-not_jump (unknown b) h = ground arith
call-not_jump op h = ground arith

target_of :
    (p : List Instruction) (pc : ℕ) (ins : Instruction)
    → validate_program p ≡ ok tt
    → instruction_at p pc ≡ some ins
    → validate_target (pcs_from 0 p).0 (slot_total p) pc ins ≡ ok tt
target_of p pc ins v e =
    let zero_plus : 0 + pc ≡ pc = omega arith in
    rw zero_plus at
      (Checked-at (pcs_from 0 p).0 (slot_total p) 0 p pc ins (validate_program-IsChecked p v).each
        e).1

-- In a program that passed `validate_program`, every jump instruction lands on the first slot of an
-- instruction.
pub jump-Lands :
    (p : List Instruction) (pc : ℕ) (ins : Instruction)
    → validate_program p ≡ ok tt
    → instruction_at p pc ≡ some ins
    → is_jump ins.op ≡ true
    → Lands p pc ins.offset
unfolding validate_target
jump-Lands p pc ins v e j = lands p (slot_total p) pc ins.offset (rw j at (target_of p pc ins v e))

-- In a program that passed `validate_program`, every CALL_IMM with src 1 lands on the first slot of an
-- instruction.
pub call-Lands :
    (p : List Instruction) (pc : ℕ) (ins : Instruction)
    → validate_program p ≡ ok tt
    → instruction_at p pc ≡ some ins
    → same ins.op call_imm ≡ true
    → ins.src ≡ 1
    → Lands p pc ins.immediate
unfolding validate_target
call-Lands p pc ins v e c one =
    let internal : (ins.src == 1) ≡ true = ground arith in
    lands p (slot_total p) pc ins.immediate
      (rw (call-not_jump ins.op c, c, internal) at (target_of p pc ins v e))

-- Its instructions passed `validate_instruction`.
pub instruction-IsValid :
    (p : List Instruction) (pc : ℕ) (ins : Instruction)
    → validate_program p ≡ ok tt
    → instruction_at p pc ≡ some ins
    → IsValid ins
instruction-IsValid p pc ins v e =
    validate_instruction-IsValid ins
      (Checked-at (pcs_from 0 p).0 (slot_total p) 0 p pc ins (validate_program-IsChecked p v).each
        e).0
