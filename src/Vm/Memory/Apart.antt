-- ===== src/Vm/Memory/Apart.antt =====
-- Loads of bytes that a store did not write.
use solanago.Base.{ℕ, ◌+◌, ◌^◌, ◌≤◌, ◌<◌, ◌≡◌, refl, ap, sym, ◌∙◌, true, false, arith}
use solanago.Base.{List, length, take, drop, some, Result, ok, err}
use solanago.Base.{◌⊎◌, inl, inr, ◌>>=◌}
use native.Mathlib.Decide.{ℕ_discrete}
use solanago.Base.{get_elem?-set, get_elem?-set-other}
use solanago.Sbpf.Instruction.{MemoryType, width_of}
use solanago.Sbpf.Instruction.{mm_stack_start}
use solanago.Vm.Errors.{Error}
use solanago.Base.Splice.{splice}
use solanago.Vm.Memory.{MemoryRegion, Place, in_stack, in_region}
use solanago.Vm.Memory.{read_place, write_place, decode_value, load_memory, store_memory}
use solanago.Vm.Memory.Search.{Covers, Finds, memory_range-Covers}
use solanago.Base.Splice.{below-splice, above-splice}
use solanago.Vm.Memory.Store.{memory_range-SameShape}
use solanago.Vm.Memory.Write.{write_place-Written}
use solanago.Vm.Memory.Access.{stored}

-- The bytes at a place apart from the written ones.
abbrev Apart : ℕ → ℕ → ℕ → ℕ → Type 0
Apart a n b m = (a + n ≤ b) ⊎ (b + m ≤ a)

splice-Apart :
    (bytes : List ℕ) (offset from width : ℕ) (new : List ℕ)
    → offset + length new ≤ length bytes
    → Apart offset (length new) from width
    → take width (drop from (splice bytes offset new)) ≡ take width (drop from bytes)
splice-Apart bytes offset from width new h (inl above) =
    rw (above-splice bytes offset from new h above) refl
splice-Apart bytes offset from width new h (inr below) =
    below-splice bytes offset from width new h below

in_bytes :
    (address other start o p n m : ℕ)
    → address ≡ start + o
    → other ≡ start + p
    → Apart address n other m
    → Apart o n p m
in_bytes address other start o p n m e f (inl h) = inl (omega arith)
in_bytes address other start o p n m e f (inr h) = inr (omega arith)

unmoved :
    (stack : List ℕ) (regions : List MemoryRegion) (address other width : ℕ) (place at : Place)
    (new : List ℕ)
    → Covers stack regions address (length new) true place
    → Covers stack regions other width false at
    → Apart address (length new) other width
    → read_place
        (write_place stack regions place new).0
        (write_place stack regions place new).1
        at
        width
      ≡ read_place stack regions at width
unfolding read_place write_place
unmoved stack regions address other width (in_stack o) (in_stack p) new (e, h) (f, k) apart =
    splice-Apart stack o p width new h
      (in_bytes address other mm_stack_start o p (length new) width e f apart)
unmoved stack regions address other width (in_stack o) (in_region j p) new c d apart = refl
unmoved stack regions address other width (in_region i o) (in_stack p) new c d apart = refl
unmoved stack regions address other width (in_region i o) (in_region j p) new c d apart =
    let (r, e, a, h, _, _) = c in
    let (q, f, b, k, _, _) = d in
    let written = record r { bytes = splice r.bytes o new } in
    elim (ℕ_discrete i j) [
      | no ne ↦ rw (write_place, read_place, e, get_elem?-set-other regions i j written ne) refl
      | yes same_index ↦
          let found_region : some q ≡ some r = sym f ∙ rw (← same_index) e in
          let same_region : q ≡ r = cc in
          rw (write_place, read_place, e, ← same_index, get_elem?-set regions i r written e, e)
            (splice-Apart r.bytes o p width new h (
              in_bytes address other r.vm_address o p (length new) width a (rw same_region at b)
                apart))
    ]

same_reads {ℓ} :
    {A : Type ℓ} (P : Place → Type 0) (r : Result Error Place) (f g : Place → Result Error A)
    → Finds P r
    → ((place : Place) → P place → f place ≡ g place)
    → (r >>= f) ≡ (r >>= g)
same_reads P (ok place) f g h each = each place h
same_reads P (err e) f g h each = refl

-- Where no two regions are slices of one array, so that each has bytes of its own: after a successful
-- store of a 64-bit word, a load of any kind from addresses that do not meet those of the store gives
-- what it gave before, an error included.
pub store_memory-Apart :
    (stack : List ℕ) (regions : List MemoryRegion) (address value : ℕ) (kind : MemoryType)
    (after : List ℕ × List MemoryRegion) (other : ℕ) (other_kind : MemoryType)
    → value < 2 ^ 64
    → store_memory stack regions address value kind ≡ ok after
    → Apart address (width_of kind) other (width_of other_kind)
    → load_memory after.0 after.1 other other_kind ≡ load_memory stack regions other other_kind
unfolding load_memory
store_memory-Apart stack regions address value kind after other other_kind h e apart =
    let (place, new, found, c, l, _, d, written) =
      stored stack regions address value kind after h e in
    let w = write_place-Written stack regions address place new c in
    rw
      (
        written,
        memory_range-SameShape stack _ regions _ other (width_of other_kind) false w.same_stack
            w.same_shape,
      )
      (same_reads (Covers stack regions other (width_of other_kind) false) _ _ _
        (memory_range-Covers stack regions other (width_of other_kind) false)
        (λ at covered. ap (decode_value other_kind) (
          unmoved stack regions address other (width_of other_kind) place at new c covered
            (rw l apart))))
