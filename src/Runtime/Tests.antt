-- ===== src/Runtime/Tests.antt =====
-- Runs of the memory map and of the error codes, after runtime/memory_test.go, and uses of their laws.
use solanago.Base.{
  ℕ, ◌*◌, ◌^◌, ◌<◌, ◌≡◌, ◌≢◌, refl, true, false, [], ◌∷◌, length, get_elem?, set, some, ok, err,
  arith, inr,
}
use mathlib.Core.List.{Perm, map}
use solanago.Base.{List, take}
use solanago.Runtime.MemoryMap.{growable_storage}
use solanago.Runtime.MemoryMap.Storage.{growable_storage-served}
use solanago.Base.Sort.{insert_by, sort_by}
use solanago.Base.Search.{search_first, search_between}
use solanago.Base.Splice.{splice}
use solanago.Runtime.ProgramError.{
  ProgramError, custom_program_error, builtin_program_error, IsProgramError, return_code,
  program_error_from_return_code, program_error_from_return_code-return_code,
  return_code-program_error_from_return_code,
}
use solanago.Runtime.MemoryMap.{
  MemoryRegion, MemoryMap, Slice, access_violation, unaligned_pointer, capacity, region_end,
  reservation_length, reserved_end, check_region, check_regions, check_gaps, check_disjoint,
  sort_regions, new_memory_map, starts_from, starts_after, resize, resize_in, resize_at,
  resize_region, translate_in, translate_at, translate, read_slice, write_slice, read_uint64,
  write_uint64,
}
use solanago.Runtime.MemoryMap.Table.{IsTable, reserve, new_memory_map-IsTable}
use solanago.Runtime.MemoryMap.Resize.{resized, resize_region-IsTable, resize_region-served}
use solanago.Runtime.MemoryMap.Translate.{
  Covers, IsAligned, translate-Covers, translate-served, read_uint64-write_uint64,
}

runtime_runs : Unit {0}
unfolding insert_by sort_by search_first search_between capacity region_end reservation_length
    reserved_end check_region check_regions check_gaps check_disjoint sort_regions new_memory_map
    starts_from starts_after resize resize_in resize_at resize_region translate_in translate_at
    translate read_slice write_slice read_uint64 write_uint64 splice
runtime_runs = tt

abbrev heap : MemoryRegion
heap = record {
  vm_start = 0x300000000;
  bytes = 1 ∷ 2 ∷ 3 ∷ 4 ∷ 5 ∷ 6 ∷ 7 ∷ 8 ∷ [];
  spare = 9 ∷ 9 ∷ [];
  writable = true;
  reserved_length = 10;
  growable = true;
  name = "heap";
}

abbrev code : MemoryRegion
code = record {
  vm_start = 0x100000000;
  bytes = 7 ∷ 7 ∷ [];
  spare = [];
  writable = false;
  reserved_length = 0;
  growable = false;
  name = "code";
}

abbrev two_regions : MemoryMap
two_regions = record { regions = record code { reserved_length = 2 } ∷ heap ∷ [] }

made : new_memory_map (heap ∷ code ∷ []) ≡ ok two_regions
unfolding runtime_runs
made = refl

two_regions-IsTable : IsTable two_regions.regions
two_regions-IsTable = (new_memory_map-IsTable (heap ∷ code ∷ []) two_regions made).0

unaligned : translate two_regions 0x300000001 2 0 2 ≡ err unaligned_pointer
unfolding runtime_runs
unaligned = refl

read_only : translate two_regions 0x100000000 1 1 1 ≡ err access_violation
unfolding runtime_runs
read_only = refl

new_memory_map-IsTable_example :
    IsTable two_regions.regions × Perm two_regions.regions (map reserve (heap ∷ code ∷ []))
new_memory_map-IsTable_example = new_memory_map-IsTable (heap ∷ code ∷ []) two_regions made

abbrev grown : MemoryMap
grown = record {
  regions =
      record code { reserved_length = 2 }
      ∷ record heap { bytes = 1 ∷ 2 ∷ 3 ∷ 4 ∷ 5 ∷ 6 ∷ 7 ∷ 8 ∷ 0 ∷ []; spare = 9 ∷ [] }
      ∷ [];
}

grows : resize_region two_regions 0x300000000 9 ≡ ok grown
unfolding runtime_runs
grows = refl

resize_region-IsTable_example :
    (k : ℕ) × (r : MemoryRegion) × (get_elem? two_regions.regions k ≡ some r)
    × (r.vm_start ≡ 0x300000000)
    × (r.growable ≡ true)
    × (grown.regions ≡ set two_regions.regions k (resize r 9))
    × ((resize r 9).bytes ≡ resized r.bytes 9)
    × (length (resize r 9).bytes ≡ 9)
    × IsTable grown.regions
resize_region-IsTable_example =
    resize_region-IsTable two_regions grown 0x300000000 9 two_regions-IsTable grows

resize_region-served_example :
    resize_region two_regions 0x300000000 3
    ≡ ok (record two_regions { regions = set two_regions.regions 1 (resize heap 3) })
resize_region-served_example =
    resize_region-served two_regions 1 3 heap two_regions-IsTable refl refl (omega arith)

growable_storage-served_example :
    (storage : List ℕ) × (growable_storage two_regions 0x300000000 (length heap.bytes)
      ≡ some storage)
    × (length storage ≡ heap.reserved_length)
    × (take (length heap.bytes) storage ≡ heap.bytes)
growable_storage-served_example =
    growable_storage-served two_regions 1 heap two_regions-IsTable refl refl (omega arith)

abbrev word_slice : Slice
word_slice = record { index = 1; offset = 4; width = 4 }

sliced : translate two_regions 0x300000004 4 1 4 ≡ ok word_slice
unfolding runtime_runs
sliced = refl

translate-Covers_example : Covers two_regions 0x300000004 4 1 word_slice × IsAligned 0x300000004 4
translate-Covers_example =
    translate-Covers two_regions 0x300000004 4 1 4 word_slice two_regions-IsTable sliced

translate-served_example : translate two_regions 0x300000004 4 1 0 ≡ ok word_slice
translate-served_example =
    translate-served two_regions 1 0x300000004 4 1 0 heap two_regions-IsTable refl (omega arith)
      (omega arith) (omega arith) (omega arith) (λ big. absurd (omega arith))

abbrev written : MemoryMap
written = record {
  regions =
      record code { reserved_length = 2 }
      ∷ record heap { bytes = 2 ∷ 1 ∷ 0 ∷ 0 ∷ 0 ∷ 0 ∷ 0 ∷ 0 ∷ [] }
      ∷ [];
}

writes : write_uint64 two_regions 0x300000000 258 ≡ ok written
unfolding runtime_runs
writes = refl

read_uint64-write_uint64_example :
    (read_uint64 written 0x300000000 ≡ ok 258) × IsTable written.regions
read_uint64-write_uint64_example =
    read_uint64-write_uint64 two_regions written 0x300000000 258 two_regions-IsTable (omega arith)
      writes

zero_code : program_error_from_return_code (2 ^ 32) ≡ some (custom_program_error 0)
unfolding program_error_from_return_code
zero_code = refl

program_error_from_return_code-return_code_example :
    (program_error_from_return_code (return_code (builtin_program_error 5))
      ≡ some (builtin_program_error 5))
    × (return_code (builtin_program_error 5) ≢ 0)
    × (return_code (builtin_program_error 5) < 2 ^ 64)
program_error_from_return_code-return_code_example =
    program_error_from_return_code-return_code (builtin_program_error 5)
      (unfold builtin_program_error in inr (refl, refl, omega arith, omega arith))

return_code-program_error_from_return_code_example :
    (e : ProgramError) × (program_error_from_return_code (3 * 2 ^ 32) ≡ some e)
    × IsProgramError e
    × (return_code e ≡ 3 * 2 ^ 32)
return_code-program_error_from_return_code_example =
    return_code-program_error_from_return_code (3 * 2 ^ 32)
      (inr (omega arith, omega arith, omega arith))
