-- ===== src/Vm/Memory.antt =====
-- vm/memory.go: the memory map, and the search for the bytes of an access. A byte slice that the
-- search returns is the place where it begins; `load_memory` and `store_memory` of vm/vm.go read and
-- write there. The field `Data` is a Go slice, and `validateMemoryRegions` compares addresses, not
-- backing arrays. Here each region has its own bytes: a caller that maps one array twice, or keeps
-- writing to it while the machine runs, is not modelled.
pub mod Search
pub mod Store
pub mod Write
pub mod Access
pub mod Apart
pub mod Map
use solanago.Base.{ℕ, ◌+◌, ◌-◌, ◌/◌, ◌%◌, ◌^◌, bit_and, Bool, true, false, ◌&&◌, ◌||◌, not}
use solanago.Base.{List, [], ◌∷◌, ◌++◌, length, get_or, get_elem?, set, take, drop, none, some}
use solanago.Base.{Result, ok, err, fail_if, ◌>>=◌, ◌>>◌, ltb, leb, ◌==◌, if◌then◌else◌}
use solanago.Base.Bytes.{put_le, get_le}
use solanago.Base.Sort.{sort_by}
use solanago.Base.Splice.{splice}
use solanago.Sbpf.Instruction.{mm_region_size, mm_stack_start, MemoryType, width_of, memory_invalid}
use solanago.Sbpf.Instruction.{memory_byte, memory_half, memory_word, memory_double_word}
use solanago.Vm.Errors.{Error, invalid_memory, read_only_memory, invalid_memory_map}
use solanago.Vm.Errors.{overlapping_memory}
use Prim.Native.String.{String}

-- `MemoryPermissions` is a byte of flags.
abbrev pub memory_read : ℕ
memory_read = 1

abbrev pub memory_write : ℕ
memory_write = 2

abbrev pub memory_read_only : ℕ
memory_read_only = 1

abbrev pub memory_read_write : ℕ
memory_read_write = 3

pub record MemoryRegion : Type 0 where
  pub vm_address : ℕ
  pub bytes : List ℕ
  pub permission : ℕ
  pub name : String

unfoldable pub read_only_region : ℕ → List ℕ → MemoryRegion
read_only_region address bytes = record {
  vm_address = address;
  bytes = bytes;
  permission = memory_read_only;
  name = "";
}

unfoldable pub writable_region : ℕ → List ℕ → MemoryRegion
writable_region address bytes = record {
  vm_address = address;
  bytes = bytes;
  permission = memory_read_write;
  name = "";
}

-- The body of the first loop of `validateMemoryRegions`.
unfoldable pub check_region : MemoryRegion → Result Error (Unit {0})
check_region region = do
  fail_if (length region.bytes == 0) invalid_memory_map
  fail_if
      (not (region.permission == memory_read_only) && not (region.permission == memory_read_write))
      invalid_memory_map
  fail_if (ltb (2 ^ 64 - 1 - length region.bytes) region.vm_address) invalid_memory_map
  fail_if
      (not (
        region.vm_address / mm_region_size
        == (region.vm_address + length region.bytes - 1) / mm_region_size))
      invalid_memory_map
  fail_if (region.vm_address / mm_region_size == mm_stack_start / mm_region_size) invalid_memory_map

unfoldable pub check_regions : List MemoryRegion → Result Error (Unit {0})
check_regions [] = ok tt
check_regions (region ∷ rest) = do check_region region; check_regions rest

-- Regions of one address overlap, so that their order does not matter: the last loop refuses them.
unfoldable pub sort_regions : List MemoryRegion → List MemoryRegion
sort_regions regions = sort_by (λ (region : MemoryRegion). region.vm_address) regions

-- The last loop of `validateMemoryRegions`, after the region `previous`.
unfoldable pub check_gaps : MemoryRegion → List MemoryRegion → Result Error (Unit {0})
check_gaps previous [] = ok tt
check_gaps previous (region ∷ rest) = do
  fail_if (ltb region.vm_address (previous.vm_address + length previous.bytes)) overlapping_memory
  check_gaps region rest

unfoldable pub check_disjoint : List MemoryRegion → Result Error (Unit {0})
check_disjoint [] = ok tt
check_disjoint (region ∷ rest) = check_gaps region rest

unfoldable pub validate_memory_regions : List MemoryRegion → Result Error (List MemoryRegion)
validate_memory_regions regions = do
  check_regions regions
  check_disjoint (sort_regions regions)
  ok (sort_regions regions)

-- Where the slice of a `memoryRange` begins: an offset into the stack, or into the bytes of the
-- region of an index.
pub data Place : Type 0 where
  in_stack : ℕ → Place
  in_region : ℕ → ℕ → Place

-- The loop of `memoryRange` over the regions from `index` on.
unfoldable pub find_region : ℕ → ℕ → ℕ → Bool → List MemoryRegion → Result Error Place
find_region index address width write [] = err invalid_memory
find_region index address width write (region ∷ rest) =
    let offset = address - region.vm_address in
    if ltb address region.vm_address
    then err invalid_memory
    else if ltb (length region.bytes) offset || ltb (length region.bytes - offset) width
    then find_region (index + 1) address width write rest
    else fail_if (bit_and region.permission memory_read == 0) invalid_memory
      >> fail_if (write && bit_and region.permission memory_write == 0) read_only_memory
      >> ok (in_region index offset)

unfoldable pub memory_range : List ℕ → List MemoryRegion → ℕ → ℕ → Bool → Result Error Place
memory_range stack regions address width write =
    let offset = address - mm_stack_start in
    if width == 0 || ltb (2 ^ 64 - 1 - width) address
    then err invalid_memory
    else if leb mm_stack_start address
        && leb offset (length stack)
        && leb width (length stack - offset)
    then ok (in_stack offset)
    else find_region 0 address width write regions

-- The `width` bytes at a place.
unfoldable pub read_place : List ℕ → List MemoryRegion → Place → ℕ → List ℕ
read_place stack regions (in_stack offset) width = take width (drop offset stack)
read_place stack regions (in_region index offset) width = elim (get_elem? regions index) [
  | none ↦ []
  | some region ↦ take width (drop offset region.bytes)
]

unfoldable pub write_place :
    List ℕ → List MemoryRegion → Place → List ℕ → List ℕ × List MemoryRegion
write_place stack regions (in_stack offset) new = (splice stack offset new, regions)
write_place stack regions (in_region index offset) new = (
  stack,
  elim (get_elem? regions index) [
    | none ↦ regions
    | some region ↦ set regions index (record region { bytes = splice region.bytes offset new })
  ],
)

-- `loadMemory` of vm/vm.go.
unfoldable pub decode_value : MemoryType → List ℕ → Result Error ℕ
decode_value memory_byte memory = ok (get_or memory 0 0)
decode_value memory_half memory = ok (get_le memory)
decode_value memory_word memory = ok (get_le memory)
decode_value memory_double_word memory = ok (get_le memory)
decode_value memory_invalid memory = err invalid_memory

unfoldable pub load_memory : List ℕ → List MemoryRegion → ℕ → MemoryType → Result Error ℕ
load_memory stack regions address kind = do
  place ← memory_range stack regions address (width_of kind) false
  decode_value kind (read_place stack regions place (width_of kind))

-- `storeMemory` of vm/vm.go.
unfoldable pub encode_value : MemoryType → ℕ → Result Error (List ℕ)
encode_value memory_byte value = ok ((value % 256) ∷ [])
encode_value memory_half value = ok (put_le 2 (value % 2 ^ 16))
encode_value memory_word value = ok (put_le 4 (value % 2 ^ 32))
encode_value memory_double_word value = ok (put_le 8 value)
encode_value memory_invalid value = err invalid_memory

unfoldable pub store_memory :
    List ℕ → List MemoryRegion → ℕ → ℕ → MemoryType → Result Error (List ℕ × List MemoryRegion)
store_memory stack regions address value kind = do
  place ← memory_range stack regions address (width_of kind) true
  new ← encode_value kind value
  ok (write_place stack regions place new)
