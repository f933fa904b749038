-- ===== src/Vm/Memory/Search.antt =====
-- What `memory_range` finds, on any memory map.
use solanago.Base.{ℕ, suc, ◌+◌, ◌-◌, ◌^◌, ◌≤◌, ◌≡◌, ◌≢◌, refl, bit_and, Bool, true, arith}
use solanago.Base.{◌&&◌, ◌||◌, List, [], ◌∷◌, length, get_elem?, some, Result, ok, err}
use solanago.Base.{ltb, leb, ◌==◌, fail_if, ◌>>◌, Bool-cases, inl, inr}
use solanago.Sbpf.Instruction.{mm_stack_start}
use solanago.Vm.Errors.{Error, invalid_memory, read_only_memory}
use solanago.Vm.Memory.{MemoryRegion, Place, in_stack, in_region, memory_range, find_region}

-- The `width` bytes at `address` are those at the place, and the permissions allow the access.
abbrev pub Covers : List ℕ → List MemoryRegion → ℕ → ℕ → Bool → Place → Type 0
Covers stack regions address width write (in_stack offset) =
    (address ≡ mm_stack_start + offset) × (offset + width ≤ length stack)
Covers stack regions address width write (in_region index offset) =
    (region : MemoryRegion) × (get_elem? regions index ≡ some region)
    × (address ≡ region.vm_address + offset)
    × (offset + width ≤ length region.bytes)
    × (bit_and region.permission 1 ≢ 0)
    × (write ≡ true → bit_and region.permission 2 ≢ 0)

-- The errors of a memory access.
abbrev pub IsMemoryError : Error → Type 0
IsMemoryError invalid_memory = Unit
IsMemoryError read_only_memory = Unit
IsMemoryError _ = ⊥

-- A search that succeeds has a place that satisfies `P`, and otherwise a memory error.
abbrev pub Finds : (Place → Type 0) → Result Error Place → Type 0
Finds P (ok place) = P place
Finds P (err e) = IsMemoryError e

-- The place `index + k` of the whole list is the place `k` of the rest.
abbrev FoundAt : ℕ → List MemoryRegion → ℕ → ℕ → Bool → Place → Type 0
FoundAt index regions address width write (in_stack offset) = ⊥
FoundAt index regions address width write (in_region i offset) =
    (k : ℕ) × (i ≡ index + k) × (Covers [] regions address width write (in_region k offset))

FoundAt-cons :
    (index : ℕ) (region : MemoryRegion) (rest : List MemoryRegion) (address width : ℕ)
    (write : Bool) (r : Result Error Place)
    → Finds (FoundAt (index + 1) rest address width write) r
    → Finds (FoundAt index (region ∷ rest) address width write) r
FoundAt-cons index region rest address width write (err e) f = f
FoundAt-cons index region rest address width write (ok (in_stack offset)) f = f
FoundAt-cons index region rest address width write (ok (in_region i offset)) (k, e, c) =
    (suc k, omega arith, c)

-- The permission tests on the region that holds the bytes.
check_permission :
    (permission : ℕ) (write : Bool) (place : Place)
    → Finds
        (λ found.
          (found ≡ place) × (bit_and permission 1 ≢ 0) × (write ≡ true → bit_and permission 2 ≢ 0))
        (fail_if (bit_and permission 1 == 0) invalid_memory
          >> fail_if (write && bit_and permission 2 == 0) read_only_memory
          >> ok place)
check_permission permission write place = ground arith

Finds-map :
    (P Q : Place → Type 0) (r : Result Error Place)
    → ((place : Place) → P place → Q place)
    → Finds P r
    → Finds Q r
Finds-map P Q (ok place) f h = f place h
Finds-map P Q (err e) f h = h

find_region-Finds :
    (index address width : ℕ) (write : Bool) (regions : List MemoryRegion)
    → Finds
        (FoundAt index regions address width write)
        (find_region index address width write regions)
unfolding find_region
find_region-Finds index address width write [] = tt
find_region-Finds index address width write (region ∷ rest) =
    let offset = address - region.vm_address in
    elim (Bool-cases (ltb address region.vm_address)) [
      | inl below ↦ rw below tt
      | inr above ↦
          rw above
            (elim (Bool-cases
              (ltb (length region.bytes) offset || ltb (length region.bytes - offset) width)) [
                | inl outside ↦ rw outside (
                    FoundAt-cons index region rest address width write _
                      (find_region-Finds (index + 1) address width write rest))
                | inr inside ↦ rw inside (
                    Finds-map _ (FoundAt index (region ∷ rest) address width write) _
                      (λ place (e, readable, writable). rw e (
                        0,
                        omega arith,
                        (region, refl, ground arith, ground arith, readable, writable),
                      ))
                      (check_permission region.permission write (in_region index offset)))
              ])
    ]

in_whole :
    (stack : List ℕ) (regions : List MemoryRegion) (address width : ℕ) (write : Bool)
    (place : Place)
    → FoundAt 0 regions address width write place
    → Covers stack regions address width write place
in_whole stack regions address width write (in_stack offset) h = absurd h
in_whole stack regions address width write (in_region i offset) (k, e, c) =
    let same_index : i ≡ k = omega arith in rw same_index c

-- A place that `memory_range` returns is at the address, has the whole width inside the stack or
-- inside one region, and a region there has the read permission, and the write permission for a
-- write; an error that it returns is one of the two of a memory access.
pub memory_range-Covers :
    (stack : List ℕ) (regions : List MemoryRegion) (address width : ℕ) (write : Bool)
    → Finds
        (Covers stack regions address width write)
        (memory_range stack regions address width write)
unfolding memory_range
memory_range-Covers stack regions address width write =
    let offset = address - mm_stack_start in
    elim (Bool-cases (width == 0 || ltb (2 ^ 64 - 1 - width) address)) [
      | inl bad ↦ rw bad tt
      | inr good ↦
          rw good
            (elim (Bool-cases (
              leb mm_stack_start address
              && leb offset (length stack)
              && leb width (length stack - offset))) [
                | inl inside ↦ rw inside (ground arith, ground arith)
                | inr outside ↦ rw outside (
                    Finds-map _ _ _ (in_whole stack regions address width write)
                      (find_region-Finds 0 address width write regions))
              ])
    ]
