-- ===== src/Vm/Memory/Write.antt =====
-- What a write of a value puts in memory, and reading it back.
use solanago.Base.{ℕ, ◌+◌, ◌%◌, ◌^◌, ◌<◌, ◌≡◌, refl, ap, ◌∙◌, true, false, arith}
use solanago.Base.{List, [], ◌∷◌, length, Result, ok, err}
use solanago.Base.{All}
use solanago.Base.{get_elem?-All, set-All, get_elem?-set}
use solanago.Base.Bytes.{IsByte, get_le-put_le, length-put_le, put_le-IsByte}
use solanago.Sbpf.Instruction.{MemoryType, width_of, memory_byte, memory_half, memory_word}
use solanago.Sbpf.Instruction.{memory_double_word, memory_invalid}
use solanago.Vm.Errors.{Error, invalid_memory}
use solanago.Base.Splice.{splice}
use solanago.Vm.Memory.{MemoryRegion, Place, in_stack, in_region, memory_range, find_region}
use solanago.Vm.Memory.{read_place, write_place, encode_value, decode_value}
use solanago.Vm.Memory.Search.{Covers}
use solanago.Base.Splice.{length-splice, splice-IsByte, read-splice}
use solanago.Vm.Memory.Store.{SameShape, SameShape-refl, set-SameShape, IsMemory}
use solanago.Vm.Memory.Store.{HasBytes}

-- What `encode_value` writes: as many bytes as the access is wide, which hold the low part of the
-- value.
abbrev pub Encodes : MemoryType → ℕ → Result Error (List ℕ) → Type 0
Encodes kind value (ok new) =
    (length new ≡ width_of kind)
    × All IsByte new
    × (decode_value kind new ≡ ok (value % 256 ^ width_of kind))
Encodes kind value (err e) = e ≡ invalid_memory

pub encode_value-Encodes :
    (kind : MemoryType) (value : ℕ) → value < 2 ^ 64 → Encodes kind value (encode_value kind value)
unfolding encode_value decode_value width_of
encode_value-Encodes memory_byte value h = (refl, (omega arith, tt), ap ok (omega arith))
encode_value-Encodes memory_half value h = (
  length-put_le 2 (value % 2 ^ 16),
  put_le-IsByte 2 (value % 2 ^ 16),
  ap ok (get_le-put_le 2 (value % 2 ^ 16) (omega arith)),
)
encode_value-Encodes memory_word value h = (
  length-put_le 4 (value % 2 ^ 32),
  put_le-IsByte 4 (value % 2 ^ 32),
  ap ok (get_le-put_le 4 (value % 2 ^ 32) (omega arith)),
)
encode_value-Encodes memory_double_word value h = (
  length-put_le 8 value,
  put_le-IsByte 8 value,
  ap ok (get_le-put_le 8 value (omega arith) ∙ omega arith),
)
encode_value-Encodes memory_invalid value h = refl

-- What was found for a write is found for a read.
find_readable :
    (index address width : ℕ) (regions : List MemoryRegion) (place : Place)
    → find_region index address width true regions ≡ ok place
    → find_region index address width false regions ≡ ok place
unfolding find_region
find_readable index address width [] place e = e
find_readable index address width (r ∷ rest) place e =
    ground (arith, find_readable (index + 1) address width rest place)

pub readable :
    (stack : List ℕ) (regions : List MemoryRegion) (address width : ℕ) (place : Place)
    → memory_range stack regions address width true ≡ ok place
    → memory_range stack regions address width false ≡ ok place
unfolding memory_range
readable stack regions address width place e =
    ground (arith, find_readable 0 address width regions place)

-- The memory after a write of `new` at a place.
pub record Written (stack : List ℕ) (regions : List MemoryRegion) (place : Place) (new : List ℕ)
    (after : List ℕ × List MemoryRegion) : Type 0 where
  pub same_stack : length after.0 ≡ length stack
  pub same_shape : SameShape regions after.1
  pub read_back : read_place after.0 after.1 place (length new) ≡ new
  pub still_bytes : IsMemory stack regions → All IsByte new → IsMemory after.0 after.1

pub write_place-Written :
    (stack : List ℕ) (regions : List MemoryRegion) (address : ℕ) (place : Place) (new : List ℕ)
    → Covers stack regions address (length new) true place
    → Written stack regions place new (write_place stack regions place new)
unfolding write_place read_place
write_place-Written stack regions address (in_stack offset) new (e, h) = record {
  same_stack = length-splice stack offset new h;
  same_shape = SameShape-refl regions;
  read_back = read-splice stack offset new h;
  still_bytes = λ m b. record {
    stack_bytes = splice-IsByte stack offset new m.stack_bytes b;
    region_bytes = m.region_bytes;
  };
}
write_place-Written stack regions address (in_region index offset) new (r, e, _, h, _, w) =
    rw e (record {
      same_stack = refl;
      same_shape = set-SameShape regions index offset new r e h (w refl);
      read_back =
          rw
            (
              read_place,
              get_elem?-set regions index r (record r { bytes = splice r.bytes offset new }) e,
            )
            (read-splice r.bytes offset new h);
      still_bytes = λ m b. record {
        stack_bytes = m.stack_bytes;
        region_bytes = set-All HasBytes regions index _ m.region_bytes (
            splice-IsByte r.bytes offset new
              (get_elem?-All HasBytes regions index r m.region_bytes e) b);
      };
    })
