-- ===== src/Vm/Memory/Map.antt =====
-- What `validate_memory_regions` returns, and that every access inside a region of it is served.
use solanago.Base.{
  ℕ, zero, suc, ◌*◌, ◌+◌, ◌-◌, ◌/◌, ◌^◌, ◌≤◌, ◌<◌, ◌≡◌, ◌≢◌, refl, ◌∙◌, bit_and, Bool, true, false,
  ◌&&◌, ◌||◌, arith,
}
use solanago.Base.{List, [], ◌∷◌, length, get_elem?, some, Result, ok, err, All, ◌⊎◌, inl, inr}
use solanago.Base.{if◌then◌else◌, ltb, leb, ◌==◌, fail_if, ◌>>◌, >>=-eq-ok, ok-injective}
use mathlib.Core.List.{Perm}
use mathlib.Core.Path.{subst}
use native.Mathlib.Decide.{dec_lt}
use solanago.Base.{get_elem?-All}
use solanago.Base.Sort.{sort_by-perm, sort_by-All}
use solanago.Sbpf.Instruction.{mm_stack_start}
use solanago.Vm.Errors.{Error, invalid_memory, read_only_memory, overlapping_memory}
use solanago.Vm.Memory.{
  MemoryRegion, Place, in_region, memory_range, find_region, validate_memory_regions,
}
use solanago.Vm.Memory.{check_region, check_regions, sort_regions, check_gaps, check_disjoint}

-- A region that passed the first loop: it has bytes, one of the two permissions, an end that no 64-bit
-- address exceeds, and lies in one block of 4 GiB, which is not that of the stack.
pub record IsRegion (r : MemoryRegion) : Type 0 where
  pub nonempty : 0 < length r.bytes
  pub permitted : (r.permission ≡ 1) ⊎ (r.permission ≡ 3)
  pub bounded : r.vm_address + length r.bytes ≤ 2 ^ 64 - 1
  pub one_block : r.vm_address / 2 ^ 32 ≡ (r.vm_address + length r.bytes - 1) / 2 ^ 32
  pub no_stack : r.vm_address / 2 ^ 32 ≢ 2

-- No region begins below `low`, nor before the one in front of it has ended.
abbrev pub IsSpaced : ℕ → List MemoryRegion → Type 0
IsSpaced low [] = Unit
IsSpaced low (r ∷ rest) = (low ≤ r.vm_address) × IsSpaced (r.vm_address + length r.bytes) rest

pub record IsMap (regions : List MemoryRegion) : Type 0 where
  pub each : All IsRegion regions
  pub spaced : IsSpaced 0 regions

check_region-IsRegion : (r : MemoryRegion) → check_region r ≡ ok tt → IsRegion r
unfolding check_region
check_region-IsRegion r h = record {
  nonempty = ground arith;
  permitted = ground arith;
  bounded = ground arith;
  one_block = ground arith;
  no_stack = ground arith;
}

check_regions-All : (l : List MemoryRegion) → check_regions l ≡ ok tt → All IsRegion l
unfolding check_regions
check_regions-All [] h = tt
check_regions-All (r ∷ rest) h =
    let (u, first, others) = >>=-eq-ok (check_region r) _ h in
    (check_region-IsRegion r first, check_regions-All rest others)

check_gaps-IsSpaced :
    (previous : MemoryRegion) (rest : List MemoryRegion)
    → check_gaps previous rest ≡ ok tt
    → IsSpaced (previous.vm_address + length previous.bytes) rest
unfolding check_gaps
check_gaps-IsSpaced previous [] h = tt
check_gaps-IsSpaced previous (r ∷ rest) h =
    let end = previous.vm_address + length previous.bytes in
    let (u, first, others) = >>=-eq-ok (fail_if (ltb r.vm_address end) overlapping_memory) _ h in
    (ground arith, check_gaps-IsSpaced r rest others)

check_disjoint-IsSpaced : (l : List MemoryRegion) → check_disjoint l ≡ ok tt → IsSpaced 0 l
unfolding check_disjoint
check_disjoint-IsSpaced [] h = tt
check_disjoint-IsSpaced (r ∷ rest) h = (omega arith, check_gaps-IsSpaced r rest h)

-- Regions that `validateMemoryRegions` accepts come back in order and apart, each with the bounds and
-- permissions of a region, and they are the same regions.
pub validate_memory_regions-IsMap :
    (regions validated : List MemoryRegion)
    → validate_memory_regions regions ≡ ok validated
    → IsMap validated × Perm validated regions
unfolding validate_memory_regions sort_regions
validate_memory_regions-IsMap regions validated h =
    let (u, each, h') = >>=-eq-ok (check_regions regions) _ h in
    let (v, apart, h'') = >>=-eq-ok (check_disjoint (sort_regions regions)) _ h' in
    subst (λ l. IsMap l × Perm l regions) (ok-injective h'')
      (
        record {
          each = sort_by-All (λ r. r.vm_address) IsRegion regions (check_regions-All regions each);
          spaced = check_disjoint-IsSpaced (sort_regions regions) apart;
        },
        sort_by-perm (λ r. r.vm_address) regions,
      )

-- What a region answers to an access: its place, if the permission allows the access.
abbrev answer : MemoryRegion → ℕ → ℕ → Bool → Result Error Place
answer r index address write =
    if write && bit_and r.permission 2 == 0
    then err read_only_memory
    else ok (in_region index (address - r.vm_address))

-- The region `k` of the list begins behind `low`.
get_elem?-IsSpaced :
    (low : ℕ) (l : List MemoryRegion) (k : ℕ) (r : MemoryRegion)
    → IsSpaced low l
    → get_elem? l k ≡ some r
    → low ≤ r.vm_address
get_elem?-IsSpaced low [] k r s e = absurd (cc e)
get_elem?-IsSpaced low (x ∷ rest) zero r (h, s) e =
    let same_region : x ≡ r = cc in rw (← same_region) h
get_elem?-IsSpaced low (x ∷ rest) (suc k) r (h, s) e =
    omega (arith, get_elem?-IsSpaced (x.vm_address + length x.bytes) rest k r s e)

-- The access is inside the region.
abbrev Inside : MemoryRegion → ℕ → ℕ → Type 0
Inside r address width =
    (0 < width) × (r.vm_address ≤ address) × (address + width ≤ r.vm_address + length r.bytes)

permits :
    (permission : ℕ) (write : Bool) (place : Place)
    → (permission ≡ 1) ⊎ (permission ≡ 3)
    → (fail_if (bit_and permission 1 == 0) invalid_memory
        >> fail_if (write && bit_and permission 2 == 0) read_only_memory
        >> ok place)
      ≡ (if write && bit_and permission 2 == 0 then err read_only_memory else ok place)
permits permission true place (inl p) = rw p refl
permits permission false place (inl p) = rw p refl
permits permission true place (inr p) = rw p refl
permits permission false place (inr p) = rw p refl

found_here :
    (index : ℕ) (r : MemoryRegion) (rest : List MemoryRegion) (address width : ℕ) (write : Bool)
    → IsRegion r
    → Inside r address width
    → find_region index address width write (r ∷ rest) ≡ answer r index address write
unfolding find_region
found_here index r rest address width write h i =
    let above : ltb address r.vm_address ≡ false = ground arith in
    let inside : (ltb (length r.bytes) (address - r.vm_address)
          || ltb (length r.bytes - (address - r.vm_address)) width)
        ≡ false =
      ground arith in
    rw (above, inside)
      (permits r.permission write (in_region index (address - r.vm_address)) h.permitted)

-- The search passes over a region that ends before the access.
passed_over :
    (index : ℕ) (x : MemoryRegion) (rest : List MemoryRegion) (address width : ℕ) (write : Bool)
    → 0 < width
    → x.vm_address + length x.bytes ≤ address
    → find_region index address width write (x ∷ rest)
      ≡ find_region (index + 1) address width write rest
unfolding find_region
passed_over index x rest address width write pos behind =
    let above : ltb address x.vm_address ≡ false = ground arith in
    let outside : (ltb (length x.bytes) (address - x.vm_address)
          || ltb (length x.bytes - (address - x.vm_address)) width)
        ≡ true =
      ground arith in
    rw (above, outside) refl

find_region-answer :
    (low index k : ℕ) (l : List MemoryRegion) (r : MemoryRegion) (address width : ℕ) (write : Bool)
    → IsSpaced low l
    → All IsRegion l
    → get_elem? l k ≡ some r
    → Inside r address width
    → find_region index address width write l ≡ answer r (index + k) address write
find_region-answer low index k [] r address width write s a e i = absurd (cc e)
find_region-answer low index zero (x ∷ rest) r address width write s (h, _) e i =
    let same_region : x ≡ r = cc in
    let same_index : index + 0 ≡ index = omega arith in
    rw (same_index, same_region)
      (found_here index r rest address width write (rw (← same_region) h) i)
find_region-answer low index (suc k) (x ∷ rest) r address width write (_, s) (_, a) e i =
    let behind = get_elem?-IsSpaced (x.vm_address + length x.bytes) rest k r s e in
    let same_index : index + suc k ≡ index + 1 + k = omega arith in
    passed_over index x rest address width write (omega arith) (omega arith)
    ∙ rw same_index (
        find_region-answer (x.vm_address + length x.bytes) (index + 1) k rest r address width write
          s a e i)

-- The stack holds no byte of a region.
off_stack :
    (stack : List ℕ) (r : MemoryRegion) (address width : ℕ)
    → length stack ≤ 2 ^ 32
    → IsRegion r
    → Inside r address width
    → (leb mm_stack_start address
        && leb (address - mm_stack_start) (length stack)
        && leb width (length stack - (address - mm_stack_start)))
      ≡ false
off_stack stack r address width small h i = elim (dec_lt address (2 ^ 33)) [
  | yes below ↦
      let not_above : leb mm_stack_start address ≡ false = ground arith in rw not_above refl
  | no above ↦
      let far : 3 * 2 ^ 32 ≤ address = omega (arith, h.one_block, h.no_stack) in ground arith
]

-- In a validated map, beside a stack of at most 4 GiB, an access inside a region is answered by that
-- region: a write without the permission is refused, and any other access gets its place.
pub memory_range-served :
    (stack : List ℕ) (regions validated : List MemoryRegion) (k : ℕ) (r : MemoryRegion)
    (address width : ℕ) (write : Bool)
    → validate_memory_regions regions ≡ ok validated
    → length stack ≤ 2 ^ 32
    → get_elem? validated k ≡ some r
    → Inside r address width
    → memory_range stack validated address width write ≡ answer r k address write
unfolding memory_range
memory_range-served stack regions validated k r address width write v small e i =
    let (m, _) = validate_memory_regions-IsMap regions validated v in
    let h = get_elem?-All IsRegion validated k r m.each e in
    let bounded : (width == 0 || ltb (2 ^ 64 - 1 - width) address) ≡ false =
      ground (arith, h.bounded) in
    let no_stack : (leb mm_stack_start address
          && leb (address - mm_stack_start) (length stack)
          && leb width (length stack - (address - mm_stack_start)))
        ≡ false =
      off_stack stack r address width small h i in
    let same_index : 0 + k ≡ k = omega arith in
    rw (bounded, no_stack)
      (rw same_index at
        (find_region-answer 0 0 k validated r address width write m.spaced m.each e i))
