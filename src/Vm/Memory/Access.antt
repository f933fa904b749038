-- ===== src/Vm/Memory/Access.antt =====
-- What a store keeps, what a load gives, and a load after a store.
use solanago.Base.{ℕ, zero, suc, ◌%◌, ◌^◌, ◌≤◌, ◌<◌, ◌≡◌, refl, true, false, arith}
use solanago.Base.{List, [], ◌∷◌, length, get_elem?, drop, Result, ok, err}
use solanago.Base.{All, inl, inr, ◌>>=◌, get_or, All-take, All-drop, Option-cases}
use solanago.Base.{length-take}
use native.Mathlib.Nat.{pow-suc, one-le-pow}
use solanago.Base.{get_elem?-All}
use solanago.Base.Bytes.{IsByte, get_le}
use solanago.Sbpf.Instruction.{MemoryType, width_of, memory_byte, memory_half, memory_word}
use solanago.Sbpf.Instruction.{memory_double_word, memory_invalid}
use solanago.Vm.Errors.{Error}
use solanago.Vm.Memory.{MemoryRegion, Place, in_stack, in_region, memory_range}
use solanago.Vm.Memory.{
  read_place, write_place, encode_value, decode_value, load_memory, store_memory,
}
use solanago.Vm.Memory.Search.{Covers, Finds, IsMemoryError, memory_range-Covers}
use solanago.Vm.Memory.Store.{SameShape, memory_range-SameShape, IsMemory}
use solanago.Vm.Memory.Store.{HasBytes}
use solanago.Vm.Memory.Write.{Encodes, encode_value-Encodes, readable, write_place-Written}

-- A store that succeeds: where it wrote what.
abbrev pub Stores :
    List ℕ → List MemoryRegion → ℕ → ℕ → MemoryType → List ℕ × List MemoryRegion → Type 0
Stores stack regions address value kind after =
    (place : Place) × (new : List ℕ) × (memory_range stack regions address (width_of kind) true
      ≡ ok place)
    × Covers stack regions address (length new) true place
    × (length new ≡ width_of kind)
    × All IsByte new
    × (decode_value kind new ≡ ok (value % 256 ^ width_of kind))
    × (after ≡ write_place stack regions place new)

-- And one that fails.
abbrev StoreGives :
    List ℕ
    → List MemoryRegion
    → ℕ
    → ℕ
    → MemoryType
    → Result Error (List ℕ × List MemoryRegion)
    → Type 0
StoreGives stack regions address value kind (ok after) =
    Stores stack regions address value kind after
StoreGives stack regions address value kind (err e) = IsMemoryError e

encoded :
    (stack : List ℕ) (regions : List MemoryRegion) (address value : ℕ) (kind : MemoryType)
    (place : Place) (r : Result Error (List ℕ))
    → memory_range stack regions address (width_of kind) true ≡ ok place
    → Covers stack regions address (width_of kind) true place
    → Encodes kind value r
    → StoreGives stack regions address value kind
        (r >>= λ new. ok (write_place stack regions place new))
encoded stack regions address value kind place (ok new) e c (l, b, d) =
    (place, new, e, rw l c, l, b, d, refl)
encoded stack regions address value kind place (err e) _ c refused = rw refused tt

placed :
    (stack : List ℕ) (regions : List MemoryRegion) (address value : ℕ) (kind : MemoryType)
    (r : Result Error Place)
    → value < 2 ^ 64
    → memory_range stack regions address (width_of kind) true ≡ r
    → Finds (Covers stack regions address (width_of kind) true) r
    → StoreGives stack regions address value kind
        (r >>= λ place. encode_value kind value >>= λ new. ok (write_place stack regions place new))
placed stack regions address value kind (ok place) h e c =
    encoded stack regions address value kind place _ e c (encode_value-Encodes kind value h)
placed stack regions address value kind (err e) h _ refused = refused

store_memory-StoreGives :
    (stack : List ℕ) (regions : List MemoryRegion) (address value : ℕ) (kind : MemoryType)
    → value < 2 ^ 64
    → StoreGives stack regions address value kind (store_memory stack regions address value kind)
unfolding store_memory
store_memory-StoreGives stack regions address value kind h =
    placed stack regions address value kind _ h refl
      (memory_range-Covers stack regions address (width_of kind) true)

-- A store into memory of bytes keeps the stack's length and the regions' shape, and leaves bytes.
abbrev pub StoreKeeps :
    List ℕ → List MemoryRegion → Result Error (List ℕ × List MemoryRegion) → Type 0
StoreKeeps stack regions (ok after) =
    (length after.0 ≡ length stack)
    × SameShape regions after.1
    × (IsMemory stack regions → IsMemory after.0 after.1)
StoreKeeps stack regions (err e) = IsMemoryError e

keeps :
    (stack : List ℕ) (regions : List MemoryRegion) (address value : ℕ) (kind : MemoryType)
    (r : Result Error (List ℕ × List MemoryRegion))
    → StoreGives stack regions address value kind r
    → StoreKeeps stack regions r
keeps stack regions address value kind (err e) h = h
keeps stack regions address value kind (ok after) (place, new, _, c, _, b, _, e) =
    let w = write_place-Written stack regions address place new c in
    rw e (w.same_stack, w.same_shape, λ m. w.still_bytes m b)

-- Where no two regions are slices of one array, so that each has bytes of its own: a store of a 64-bit
-- word fails with one of the two errors of an access, or else it keeps the length
-- of the stack; the address, the length and the permission of every region; the bytes of a region
-- without the write permission; and that memory holds bytes, if it did.
pub store_memory-StoreKeeps :
    (stack : List ℕ) (regions : List MemoryRegion) (address value : ℕ) (kind : MemoryType)
    → value < 2 ^ 64
    → StoreKeeps stack regions (store_memory stack regions address value kind)
store_memory-StoreKeeps stack regions address value kind h =
    keeps stack regions address value kind _
      (store_memory-StoreGives stack regions address value kind h)

pub stored :
    (stack : List ℕ) (regions : List MemoryRegion) (address value : ℕ) (kind : MemoryType)
    (after : List ℕ × List MemoryRegion)
    → value < 2 ^ 64
    → store_memory stack regions address value kind ≡ ok after
    → Stores stack regions address value kind after
stored stack regions address value kind after h e =
    rw e at (store_memory-StoreGives stack regions address value kind h)

-- After a successful store of a 64-bit word, a load of the same kind at the same address succeeds and
-- gives the word modulo 256 to the power of the width.
pub load_memory-store_memory :
    (stack : List ℕ) (regions : List MemoryRegion) (address value : ℕ) (kind : MemoryType)
    (after : List ℕ × List MemoryRegion)
    → value < 2 ^ 64
    → store_memory stack regions address value kind ≡ ok after
    → load_memory after.0 after.1 address kind ≡ ok (value % 256 ^ width_of kind)
unfolding load_memory
load_memory-store_memory stack regions address value kind after h e =
    let (place, new, found, c, l, _, d, written) =
      stored stack regions address value kind after h e in
    let w = write_place-Written stack regions address place new c in
    let again = readable stack regions address (width_of kind) place found in
    let back = rw l at w.read_back in
    rw
      (
        written,
        memory_range-SameShape stack _ regions _ address (width_of kind) false w.same_stack
            w.same_shape,
        again,
        back,
      )
      d

-- A load from memory of bytes gives a word of its width, or one of the two errors.
abbrev pub Loads : MemoryType → Result Error ℕ → Type 0
Loads kind (ok value) = value < 256 ^ width_of kind
Loads kind (err e) = IsMemoryError e

get_or-lt : (bs : List ℕ) → All IsByte bs → get_or bs 0 0 < 256
get_or-lt [] h = omega arith
get_or-lt (b ∷ bs) h = h.0

get_le-narrow : (n : ℕ) (bs : List ℕ) → All IsByte bs → length bs ≤ n → get_le bs < 256 ^ n
get_le-narrow n [] h l = one-le-pow n 256 (omega arith)
get_le-narrow zero (b ∷ bs) h l = absurd (omega arith)
get_le-narrow (suc n) (b ∷ bs) h l =
    omega (arith, pow-suc 256 n, get_le-narrow n bs h.1 (omega arith))

decode_value-Loads :
    (kind : MemoryType) (bs : List ℕ)
    → All IsByte bs
    → length bs ≤ width_of kind
    → Loads kind (decode_value kind bs)
unfolding decode_value width_of
decode_value-Loads memory_byte bs h l = omega (arith, get_or-lt bs h)
decode_value-Loads memory_half bs h l = get_le-narrow 2 bs h l
decode_value-Loads memory_word bs h l = get_le-narrow 4 bs h l
decode_value-Loads memory_double_word bs h l = get_le-narrow 8 bs h l
decode_value-Loads memory_invalid bs h l = tt

read_place-All :
    (stack : List ℕ) (regions : List MemoryRegion) (place : Place) (width : ℕ)
    → IsMemory stack regions
    → All IsByte (read_place stack regions place width)
unfolding read_place
read_place-All stack regions (in_stack offset) width m =
    All-take IsByte width _ (All-drop IsByte offset stack m.stack_bytes)
read_place-All stack regions (in_region i offset) width m =
    elim (Option-cases (get_elem? regions i)) [
      | inl e ↦ rw (read_place, e) tt
      | inr (r, e) ↦
          rw (read_place, e)
            (All-take IsByte width _ (
              All-drop IsByte offset r.bytes (get_elem?-All HasBytes regions i r m.region_bytes e)))
    ]

length-read_place :
    (stack : List ℕ) (regions : List MemoryRegion) (place : Place) (width : ℕ)
    → length (read_place stack regions place width) ≤ width
unfolding read_place
length-read_place stack regions (in_stack offset) width =
    omega (arith, length-take width (drop offset stack))
length-read_place stack regions (in_region i offset) width =
    elim (Option-cases (get_elem? regions i)) [
      | inl e ↦ rw (read_place, e) (omega arith)
      | inr (r, e) ↦ rw (read_place, e) (omega (arith, length-take width (drop offset r.bytes)))
    ]

read_from :
    (stack : List ℕ) (regions : List MemoryRegion) (address : ℕ) (kind : MemoryType)
    (r : Result Error Place)
    → IsMemory stack regions
    → Finds (Covers stack regions address (width_of kind) false) r
    → Loads kind (r >>= λ place. decode_value kind (read_place stack regions place (width_of kind)))
read_from stack regions address kind (ok place) m c =
    decode_value-Loads kind _ (read_place-All stack regions place (width_of kind) m)
      (length-read_place stack regions place (width_of kind))
read_from stack regions address kind (err e) m c = c

-- From memory of bytes a load gives a value of its width in bytes, or fails with one of the two errors
-- of an access.
pub load_memory-Loads :
    (stack : List ℕ) (regions : List MemoryRegion) (address : ℕ) (kind : MemoryType)
    → IsMemory stack regions
    → Loads kind (load_memory stack regions address kind)
unfolding load_memory
load_memory-Loads stack regions address kind m =
    read_from stack regions address kind _ m
      (memory_range-Covers stack regions address (width_of kind) false)
