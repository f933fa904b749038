-- ===== src/Runtime/MemoryMap.antt =====
-- runtime/memory.go: the memory map of an embedding runtime. A byte slice that `Translate` returns is
-- a range of a region's bytes. The backing arrays of different regions are apart, and a nil receiver
-- is not modelled: the methods refuse it.
pub mod Table
pub mod Lookup
pub mod Resize
pub mod Storage
pub mod Translate
use solanago.Base.{ℕ, suc, ◌+◌, ◌-◌, ◌/◌, ◌%◌, ◌^◌, bit_and, Bool, true, false, not, ◌&&◌, ◌||◌}
use solanago.Base.{
  List, [], ◌∷◌, ◌++◌, length, get_elem?, set, take, drop, replicate, Option, none, some,
}
use solanago.Base.{Result, ok, err, fail_if, ◌>>=◌, ◌>>◌, ltb, leb, ◌==◌, if◌then◌else◌}
use solanago.Base.Bytes.{put_le, get_le}
use solanago.Base.Sort.{sort_by}
use solanago.Base.Search.{search_first}
use solanago.Base.Splice.{splice}
use solanago.Sbpf.Instruction.{mm_region_size}
use Prim.Native.String.{String}

pub data Error : Type 0 where
  invalid_memory_region memory_overlap access_violation unaligned_pointer invalid_length : Error

-- `AccessType` is a byte.
abbrev pub access_read : ℕ
access_read = 0

abbrev pub access_write : ℕ
access_write = 1

-- `bytes` and `spare` are the field `Data`: its elements, and those of its backing array behind them,
-- up to its capacity.
pub record MemoryRegion : Type 0 where
  pub vm_start : ℕ
  pub bytes : List ℕ
  pub spare : List ℕ
  pub writable : Bool
  pub reserved_length : ℕ
  pub growable : Bool
  pub name : String

-- `cap(r.Data)`.
unfoldable pub capacity : MemoryRegion → ℕ
capacity r = length r.bytes + length r.spare

unfoldable pub region_end : MemoryRegion → ℕ × Bool
region_end r =
    if ltb (2 ^ 64 - 1 - r.vm_start) (length r.bytes)
    then (0, false)
    else (r.vm_start + length r.bytes, true)

unfoldable pub reservation_length : MemoryRegion → ℕ
reservation_length r = if r.reserved_length == 0 then length r.bytes else r.reserved_length

unfoldable pub reserved_end : MemoryRegion → ℕ × Bool
reserved_end r =
    let reserved = reservation_length r in
    if ltb (2 ^ 64 - 1 - r.vm_start) reserved then (0, false) else (r.vm_start + reserved, true)

pub record MemoryMap : Type 0 where
  pub regions : List MemoryRegion

-- The body of the first loop of `NewMemoryMap`: the region with its reservation.
unfoldable pub check_region : MemoryRegion → Result Error MemoryRegion
check_region r = do
  let reserved = reservation_length r
  let (end, fits) = reserved_end r
  fail_if (reserved == 0) invalid_memory_region
  fail_if (ltb reserved (length r.bytes)) invalid_memory_region
  fail_if (r.growable && (not r.writable || ltb (capacity r) reserved)) invalid_memory_region
  fail_if (not fits) invalid_memory_region
  fail_if (not (r.vm_start / mm_region_size == (end - 1) / mm_region_size)) invalid_memory_region
  ok (record r { reserved_length = reserved })

unfoldable pub check_regions : List MemoryRegion → Result Error (List MemoryRegion)
check_regions [] = ok []
check_regions (r ∷ rest) = do
  checked ← check_region r
  others ← check_regions rest
  ok (checked ∷ others)

-- The last loop, after the region `previous`.
unfoldable pub check_gaps : MemoryRegion → List MemoryRegion → Result Error (Unit {0})
check_gaps previous [] = ok tt
check_gaps previous (r ∷ rest) = do
  fail_if (ltb r.vm_start (reserved_end previous).0) memory_overlap
  check_gaps r rest

unfoldable pub check_disjoint : List MemoryRegion → Result Error (Unit {0})
check_disjoint [] = ok tt
check_disjoint (r ∷ rest) = check_gaps r rest

unfoldable pub sort_regions : List MemoryRegion → List MemoryRegion
sort_regions regions = sort_by (λ (r : MemoryRegion). r.vm_start) regions

unfoldable pub new_memory_map : List MemoryRegion → Result Error MemoryMap
new_memory_map regions = do
  checked ← check_regions regions
  check_disjoint (sort_regions checked)
  ok (record { regions = sort_regions checked })

-- The tests of the two searches, on an index into the regions.
unfoldable pub starts_from : List MemoryRegion → ℕ → ℕ → Bool
starts_from regions address index = elim (get_elem? regions index) [
  | none ↦ true
  | some r ↦ leb address r.vm_start
]

unfoldable pub starts_after : List MemoryRegion → ℕ → ℕ → Bool
starts_after regions address index = elim (get_elem? regions index) [
  | none ↦ true
  | some r ↦ ltb address r.vm_start
]

-- `region.Data[:newLength]` and the two calls of `clear`.
unfoldable pub resize : MemoryRegion → ℕ → MemoryRegion
resize r new_length =
    let old_length = length r.bytes in
    if ltb old_length new_length
    then record r {
      bytes = r.bytes ++ replicate (new_length - old_length) 0;
      spare = drop (new_length - old_length) r.spare;
    }
    else record r {
      bytes = take new_length r.bytes;
      spare = replicate (old_length - new_length) 0 ++ r.spare;
    }

-- The tests on the region that the search found.
unfoldable pub resize_in : MemoryMap → ℕ → MemoryRegion → ℕ → ℕ → Result Error MemoryMap
resize_in m index r address new_length = do
  fail_if (not (r.vm_start == address)) access_violation
  fail_if
      (not r.growable
        || not r.writable
        || ltb r.reserved_length new_length
        || ltb (capacity r) new_length
        || ltb (2 ^ 63 - 1) new_length)
      access_violation
  ok (record m { regions = set m.regions index (resize r new_length) })

-- What follows the search, which gave the index.
unfoldable pub resize_at : MemoryMap → ℕ → ℕ → ℕ → Result Error MemoryMap
resize_at m index address new_length = elim (get_elem? m.regions index) [
  | none ↦ err access_violation
  | some r ↦ resize_in m index r address new_length
]

unfoldable pub resize_region : MemoryMap → ℕ → ℕ → Result Error MemoryMap
resize_region m address new_length =
    resize_at m (search_first (length m.regions) (starts_from m.regions address)) address new_length

-- A slice of the bytes of the region `index`.
pub record Slice : Type 0 where
  pub index : ℕ
  pub offset : ℕ
  pub width : ℕ

-- The tests on the region that was selected.
unfoldable pub translate_in : MemoryRegion → ℕ → ℕ → ℕ → ℕ → Result Error Slice
translate_in r index address width access =
    let end = address + width in
    let stop = (region_end r).0 in
    do
      fail_if (ltb address r.vm_start || ltb stop end || (ltb 0 width && address == stop))
          access_violation
      fail_if (access == access_write && not r.writable) access_violation
      ok (record { index = index; offset = address - r.vm_start; width = width })

-- What follows the search, which gave the index.
unfoldable pub translate_at : MemoryMap → ℕ → ℕ → ℕ → ℕ → Result Error Slice
translate_at m next address width access = do
  fail_if (next == 0) access_violation
  elim (get_elem? m.regions (next - 1)) [
    | none ↦ err access_violation
    | some r ↦ translate_in r (next - 1) address width access
  ]

unfoldable pub translate : MemoryMap → ℕ → ℕ → ℕ → ℕ → Result Error Slice
translate m address width access alignment = do
  fail_if (not (access == access_read) && not (access == access_write)) access_violation
  fail_if
      (ltb 1 alignment
        && (not (bit_and alignment (alignment - 1) == 0) || not (address % alignment == 0)))
      unaligned_pointer
  fail_if (ltb (2 ^ 64 - 1 - address) width) invalid_length
  translate_at m (search_first (length m.regions) (starts_after m.regions address)) address width
      access

-- The bytes of a slice, and the map after they were replaced.
unfoldable pub read_slice : MemoryMap → Slice → List ℕ
read_slice m s = elim (get_elem? m.regions s.index) [
  | none ↦ []
  | some r ↦ take s.width (drop s.offset r.bytes)
]

unfoldable pub write_slice : MemoryMap → Slice → List ℕ → MemoryMap
write_slice m s new = elim (get_elem? m.regions s.index) [
  | none ↦ m
  | some r ↦ record m {
    regions = set m.regions s.index (record r { bytes = splice r.bytes s.offset new });
  }
]

unfoldable pub read_uint64 : MemoryMap → ℕ → Result Error ℕ
read_uint64 m address = do s ← translate m address 8 access_read 8; ok (get_le (read_slice m s))

unfoldable pub write_uint64 : MemoryMap → ℕ → ℕ → Result Error MemoryMap
write_uint64 m address value = do
  s ← translate m address 8 access_write 8
  ok (write_slice m s (put_le 8 value))

-- `growableStorage`: the whole reservation of the region at an address.
unfoldable pub growable_storage : MemoryMap → ℕ → ℕ → Option (List ℕ)
growable_storage m address current_length =
    let index = search_first (length m.regions) (starts_from m.regions address) in
    elim (get_elem? m.regions index) [
      | none ↦ none
      | some r ↦
          if not (r.vm_start == address)
          then none
          else if not r.growable
              || not (length r.bytes == current_length)
              || ltb (capacity r) r.reserved_length
              || ltb (2 ^ 63 - 1) r.reserved_length
          then none
          else some (take r.reserved_length (r.bytes ++ r.spare))
    ]
