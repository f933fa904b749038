-- ===== src/Vm/Memory/Store.antt =====
-- Loads and stores at a place of the memory map.
use solanago.Base.{ℕ, zero, suc, ◌+◌, ◌≤◌, ◌≡◌, ◌≢◌, refl, ◌∙◌, bit_and, Bool}
use solanago.Base.{List, [], ◌∷◌, length, get_elem?, set, some}
use solanago.Base.{All}
use solanago.Base.Bytes.{IsByte}
use solanago.Base.Splice.{splice}
use solanago.Vm.Memory.{MemoryRegion, memory_range, find_region}
use solanago.Base.Splice.{length-splice}

-- The regions after a run of stores: only the bytes of writable regions differ.
abbrev pub SameShape : List MemoryRegion → List MemoryRegion → Type 0
SameShape [] [] = Unit
SameShape [] (s ∷ after) = ⊥
SameShape (r ∷ before) [] = ⊥
SameShape (r ∷ before) (s ∷ after) =
    (s.vm_address ≡ r.vm_address)
    × (length s.bytes ≡ length r.bytes)
    × (s.permission ≡ r.permission)
    × (bit_and r.permission 2 ≡ 0 → s.bytes ≡ r.bytes)
    × SameShape before after

pub SameShape-refl : (regions : List MemoryRegion) → SameShape regions regions
SameShape-refl [] = tt
SameShape-refl (r ∷ rest) = (refl, refl, refl, λ _. refl, SameShape-refl rest)

pub SameShape-trans : (a b c : List MemoryRegion) → SameShape a b → SameShape b c → SameShape a c
SameShape-trans [] [] [] p q = tt
SameShape-trans [] [] (z ∷ c) p q = absurd q
SameShape-trans [] (y ∷ b) c p q = absurd p
SameShape-trans (x ∷ a) [] c p q = absurd p
SameShape-trans (x ∷ a) (y ∷ b) [] p q = absurd q
SameShape-trans (x ∷ a) (y ∷ b) (z ∷ c) (p1, p2, p3, p4, p5) (q1, q2, q3, q4, q5) =
    (q1 ∙ p1, q2 ∙ p2, q3 ∙ p3, λ h. q4 (rw p3 h) ∙ p4 h, SameShape-trans a b c p5 q5)

-- The search depends on the shape alone.
find_region-SameShape :
    (before after : List MemoryRegion) (index address width : ℕ) (write : Bool)
    → SameShape before after
    → find_region index address width write after ≡ find_region index address width write before
unfolding find_region
find_region-SameShape [] [] index address width write s = refl
find_region-SameShape [] (x ∷ after) index address width write s = absurd s
find_region-SameShape (r ∷ before) [] index address width write s = absurd s
find_region-SameShape (r ∷ before) (x ∷ after) index address width write (a, l, p, _, rest) =
    rw (a, l, p, find_region-SameShape before after (index + 1) address width write rest)

pub memory_range-SameShape :
    (stack stack' : List ℕ) (before after : List MemoryRegion) (address width : ℕ) (write : Bool)
    → length stack' ≡ length stack
    → SameShape before after
    → memory_range stack' after address width write ≡ memory_range stack before address width write
unfolding memory_range
memory_range-SameShape stack stack' before after address width write l s =
    rw (l, find_region-SameShape before after 0 address width write s)

pub set-SameShape :
    (regions : List MemoryRegion) (i offset : ℕ) (new : List ℕ) (r : MemoryRegion)
    → get_elem? regions i ≡ some r
    → offset + length new ≤ length r.bytes
    → bit_and r.permission 2 ≢ 0
    → SameShape regions (set regions i (record r { bytes = splice r.bytes offset new }))
set-SameShape [] i offset new r e h w = tt
set-SameShape (x ∷ rest) zero offset new r e h w =
    let same_region : x ≡ r = cc in
    rw same_region
      (refl, length-splice r.bytes offset new h, refl, λ z. absurd (w z), SameShape-refl rest)
set-SameShape (x ∷ rest) (suc i) offset new r e h w =
    (refl, refl, refl, λ z. refl, set-SameShape rest i offset new r e h w)

abbrev pub HasBytes : MemoryRegion → Type 0
HasBytes r = All IsByte r.bytes

-- Every cell of the memory is a byte.
pub record IsMemory (stack : List ℕ) (regions : List MemoryRegion) : Type 0 where
  pub stack_bytes : All IsByte stack
  pub region_bytes : All HasBytes regions
