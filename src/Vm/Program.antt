-- ===== src/Vm/Program.antt =====
-- The program by physical pc: `byPC` finds the instruction whose first slot stands there.
use solanago.Base.{ℕ, suc, ◌+◌, ◌-◌, ◌<◌, ◌≤◌, ◌≡◌, refl, sym, true, false, List, [], ◌∷◌, arith}
use solanago.Base.{Option, none, some, inl, inr, Bool-cases, if◌then◌else◌, ltb, ◌==◌, get_elem?}
use solanago.Sbpf.Instruction.{Instruction, slots, pcs_from, physical_pcs}
use solanago.Sbpf.RoundTrip.{slots_pos}
use solanago.Sbpf.Targets.{instruction_at}
use solanago.Vm.Machine.{Config, PcMap, lookup_pc, index_pcs, build, fetch}

-- The index that the map holds for `pc`, where `d` is what it held before.
found : ℕ → ℕ → List Instruction → ℕ → Option ℕ → Option ℕ
found i start [] pc d = d
found i start (ins ∷ rest) pc d =
    found (i + 1) (start + slots ins) rest pc (if start == pc then some i else d)

lookup_pc-index_pcs :
    (m : PcMap) (i start : ℕ) (p : List Instruction) (pc : ℕ)
    → lookup_pc (index_pcs m i (pcs_from start p).0) pc ≡ found i start p pc (lookup_pc m pc)
unfolding found index_pcs pcs_from lookup_pc
lookup_pc-index_pcs m i start [] pc = refl
lookup_pc-index_pcs m i start (ins ∷ rest) pc =
    lookup_pc-index_pcs ((start, i) ∷ m) (i + 1) (start + slots ins) rest pc

found_before :
    (i start : ℕ) (p : List Instruction) (pc : ℕ) (d : Option ℕ)
    → pc < start
    → found i start p pc d ≡ d
unfolding found
found_before i start [] pc d h = refl
found_before i start (ins ∷ rest) pc d h =
    let other : (start == pc) ≡ false = ground arith in
    rw other (found_before (i + 1) (start + slots ins) rest pc d (omega arith))

-- The map and the program agree at `pc`.
abbrev pub Agrees : ℕ → List Instruction → Option Instruction → Option ℕ → Type 0
Agrees i p here none = here ≡ none
Agrees i p here (some j) =
    (k : ℕ) × (j ≡ i + k) × (get_elem? p k ≡ here) × (ins : Instruction) × (here ≡ some ins)

Agrees-cons :
    (i : ℕ) (ins : Instruction) (rest : List Instruction) (here : Option Instruction) (j : Option ℕ)
    → Agrees (i + 1) rest here j
    → Agrees i (ins ∷ rest) here j
Agrees-cons i ins rest here none h = h
Agrees-cons i ins rest here (some j) (k, e, at, x, it) = (suc k, omega arith, at, x, it)

found-Agrees :
    (i start : ℕ) (p : List Instruction) (pc : ℕ)
    → start ≤ pc
    → Agrees i p (instruction_at p (pc - start)) (found i start p pc none)
unfolding found instruction_at
found-Agrees i start [] pc h = refl
found-Agrees i start (ins ∷ rest) pc h = elim (Bool-cases (start == pc)) [
  | inl e ↦
      let zero_offset : (pc - start == 0) ≡ true = ground arith in
      let before : pc < start + slots ins = ground (arith, slots_pos ins) in
      rw (e, zero_offset, found_before (i + 1) (start + slots ins) rest pc (some i) before)
        (0, omega arith, refl, ins, refl)
  | inr e ↦
      let offset : (pc - start == 0) ≡ false = ground arith in
      rw (e, offset)
        (elim (Bool-cases (ltb (pc - start) (slots ins))) [
          | inl inside ↦
              let before : pc < start + slots ins = ground arith in
              rw (inside, found_before (i + 1) (start + slots ins) rest pc none before) refl
          | inr after ↦
              let further : pc - start - slots ins ≡ pc - (start + slots ins) = ground arith in
              rw (after, further)
                (Agrees-cons i ins rest _ _
                  (found-Agrees (i + 1) (start + slots ins) rest pc (ground arith)))
        ])
]

module _ (p : List Instruction) (config : Config) where
  -- The map of a machine has an entry where the program has an instruction, and the entry finds it.
  pub build-Agrees :
      (pc : ℕ) → Agrees 0 p (instruction_at p pc) (lookup_pc (build p config).by_pc pc)
  unfolding build physical_pcs lookup_pc
  build-Agrees pc =
      let start : pc - 0 ≡ pc = omega arith in
      rw (lookup_pc-index_pcs [] 0 0 p pc) (rw start at (found-Agrees 0 0 p pc (omega arith)))

  build-program : (build p config).program ≡ p
  unfolding build
  build-program = refl

  fetch_by :
      (pc : ℕ) (j : Option ℕ)
      → lookup_pc (build p config).by_pc pc ≡ j
      → Agrees 0 p (instruction_at p pc) j
      → fetch (build p config) pc ≡ instruction_at p pc
  unfolding fetch
  fetch_by pc none e a = rw (e, fetch) (sym a)
  fetch_by pc (some j) e (k, q, at, _, _) =
      let same_index : j ≡ k = omega arith in rw (e, fetch, same_index, build-program) at

  -- In a machine built from a program, the lookup of a pc in `byPC` and then in the program finds the
  -- instruction whose first slot the pc is, and finds none for any other pc.
  pub fetch-instruction_at : (pc : ℕ) → fetch (build p config) pc ≡ instruction_at p pc
  fetch-instruction_at pc = fetch_by pc _ refl (build-Agrees pc)
