-- ===== src/Sbpf/Slot.antt =====
-- One slot of eight bytes, written and read.
use solanago.Base.{ℕ, ◌+◌, ◌*◌, ◌/◌, ◌%◌, ◌^◌, ◌<◌, bit_or, ◌≡◌, true, arith}
use solanago.Base.{List, [], ◌∷◌, length, All}
use solanago.Base.Bits.{bit_or_disjoint, bit_and_15}
use solanago.Base.Bytes.{IsByte, get_le, get_le-put_le}
use solanago.Base.Int.{
  ℤ, IsInt16, IsInt32, of_u16-to_u16, of_u32-to_u32, to_u16-of_u16, to_u32-of_u32,
}
use solanago.Base.Int.{to_u16, to_u32}
use solanago.Base.Int.{IsInt64, of_u16-IsInt16, of_u32-IsInt32}
use solanago.Sbpf.Opcode.{Opcode}
use solanago.Sbpf.Opcode.Names.{is_valid}
use solanago.Sbpf.Opcode.Laws.{opcode_of-byte_of, byte_of-opcode_of}
use solanago.Sbpf.Instruction.{IsTyped}
use solanago.Sbpf.Encode.{encode_slot}
use solanago.Sbpf.Decode.{decode_slot}

register_byte : (s d : ℕ) → s < 16 → d < 16 → bit_or (s * 2 ^ 4 % 256) d ≡ s * 16 + d
register_byte s d hs hd = omega (arith, bit_or_disjoint 4 s d hd, wraps)
  where
    wraps : bit_or (s * 2 ^ 4 % 256) d ≡ bit_or (s * 2 ^ 4) d
    wraps = let e : s * 2 ^ 4 % 256 ≡ s * 2 ^ 4 = omega arith in rw e

-- Reading a slot gives back what was written into it.
pub decode_slot-encode_slot :
    (op : Opcode) (dst src : ℕ) (offset immediate : ℤ)
    → is_valid op ≡ true
    → dst < 16
    → src < 16
    → IsInt16 offset
    → IsInt32 immediate
    → decode_slot (encode_slot op dst src offset immediate)
      ≡ record { op = op; dst = dst; src = src; offset = offset; immediate = immediate }
unfolding decode_slot encode_slot
decode_slot-encode_slot op dst src offset immediate v hd hs ho hi = ground (
  arith,
  opcode_of-byte_of op v,
  register_byte src dst hs hd,
  bit_and_15 (src * 16 + dst),
  get_le-put_le 2 (to_u16 offset),
  get_le-put_le 4 (to_u32 immediate),
  of_u16-to_u16 offset ho,
  of_u32-to_u32 immediate hi,
)

-- Writing what was read from a slot gives back the slot.
pub encode_slot-decode_slot :
    (slot : List ℕ)
    → length slot ≡ 8
    → All IsByte slot
    → let ins = decode_slot slot in
      encode_slot ins.op ins.dst ins.src ins.offset ins.immediate ≡ slot
unfolding decode_slot encode_slot
encode_slot-decode_slot (a ∷ b ∷ c ∷ d ∷ e ∷ f ∷ g ∷ h ∷ []) l bytes = ground (
  arith,
  byte_of-opcode_of a,
  register_byte (b / 16) (b % 16) (omega arith) (omega arith),
  bit_and_15 b,
  to_u16-of_u16 (get_le (c ∷ d ∷ [])) (omega arith),
  to_u32-of_u32 (get_le (e ∷ f ∷ g ∷ h ∷ [])) (omega arith),
)
encode_slot-decode_slot _ l bytes = absurd (omega arith)

-- What is read from a slot fits the fields' Go types, and the immediate an int32.
pub decode_slot_fits :
    (slot : List ℕ)
    → length slot ≡ 8
    → All IsByte slot
    → IsTyped (decode_slot slot) × IsInt32 (decode_slot slot).immediate
unfolding decode_slot
decode_slot_fits (a ∷ b ∷ c ∷ d ∷ e ∷ f ∷ g ∷ h ∷ []) l bytes = (
  record {
    dst_byte = omega (arith, bit_and_15 b);
    src_byte = omega arith;
    offset_int16 = of_u16-IsInt16 _ (omega arith);
    immediate_int64 = widen _ (of_u32-IsInt32 _ (omega arith));
  },
  of_u32-IsInt32 _ (omega arith),
)
  where
    widen : (x : ℤ) → IsInt32 x → IsInt64 x
    widen x i = omega arith
decode_slot_fits _ l bytes = absurd (omega arith)
